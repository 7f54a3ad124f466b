-- ===== src/Remaster/Fifo.antt =====
-- The queues of SimpleRemasterManager: who enters, who leaves, and in which order.
use mathlib.Core.List.{append_assoc, append-nil}
use slog.Base.{
  ℕ, ◌+◌, ◌≡◌, refl, ap, sym, subst, Bool, true, false, Option, some, some_inj, List, [], ◌∷◌, ◌++◌,
  arith, lookup, insert, lookup-insert, nat_Eq, length, is_empty, if◌then◌else◌, Option-cases,
  Bool-cases, inl, inr,
}
use slog.Txn.{Transaction, to_uint32}
use slog.Remaster.{
  VerifyMasterResult, valid, waiting, abort, RemasterOccurredResult, no_result, Storage,
  check_counters,
}
use slog.Remaster.Simple.{
  SimpleRemasterManager, queue, set_queue, verify_master, unblock, try_to_unblock,
}

abbrev pub is_valid : Option VerifyMasterResult → Bool
is_valid (some valid) = true
is_valid _ = false

abbrev pub is_abort : Option VerifyMasterResult → Bool
is_abort (some abort) = true
is_abort _ = false

abbrev pub is_waiting : VerifyMasterResult → Bool
is_waiting waiting = true
is_waiting _ = false

empty_of : (q : List Transaction) → is_empty q ≡ true → q ≡ []
empty_of [] h = refl
empty_of (t ∷ q) h = absurd (ground arith)

module _ (storage : Storage) where
  abbrev pub valids : List Transaction → List Transaction
  valids [] = []
  valids (t ∷ ts) = if is_valid (check_counters storage true t) then t ∷ valids ts else valids ts

  abbrev pub aborts : List Transaction → List Transaction
  aborts [] = []
  aborts (t ∷ ts) = if is_abort (check_counters storage true t) then t ∷ aborts ts else aborts ts

  -- The queue is empty, or its head waits for a remaster.
  abbrev pub Held : List Transaction → Type 0
  Held [] = Unit
  Held (t ∷ ts) = check_counters storage true t ≡ some waiting

  -- Those that left the queue `q`, which now is `rest`, with the results before and after.
  pub record Left (q rest : List Transaction) (r r' : RemasterOccurredResult) : Type 0 where
    pub gone : List Transaction
    pub prefix : q ≡ gone ++ rest
    pub unblocked : r'.unblocked ≡ r.unblocked ++ valids gone
    pub aborted : r'.should_abort ≡ r.should_abort ++ aborts gone
    pub told : length gone ≡ length (valids gone) + length (aborts gone)
    pub held : Held rest

  stays : (q : List Transaction) (r : RemasterOccurredResult) → Held q → Left q q r r
  stays q r h = record {
    gone = [];
    prefix = refl;
    unblocked = sym (append-nil r.unblocked);
    aborted = sym (append-nil r.should_abort);
    told = refl;
    held = h;
  }

  unblock-Left :
      (q rest : List Transaction) (r r' : RemasterOccurredResult)
      → unblock storage q r ≡ some (rest, r')
      → Left q rest r r'
  unfolding unblock
  unblock-Left [] rest r r' e =
      subst (λ (x : List Transaction × RemasterOccurredResult). Left [] x.0 r x.1) (some_inj e)
        (stays [] r tt)
  unblock-Left (t ∷ q) rest r r' e = elim (Option-cases (check_counters storage true t)) [
    | inl c ↦ absurd (ground arith)
    | inr (waiting, c) ↦
        subst (λ (x : List Transaction × RemasterOccurredResult). Left (t ∷ q) x.0 r x.1)
          {x = (t ∷ q, r)} (ground arith) (stays (t ∷ q) r c)
    | inr (valid, c) ↦
        (let v =
            unblock-Left q rest (record r { unblocked = r.unblocked ++ t ∷ [] }) r'
              (ground arith) in
          record {
            gone = t ∷ v.gone;
            prefix = ap (◌∷◌ t) v.prefix;
            unblocked =
                ground (arith, v.unblocked, append_assoc r.unblocked (t ∷ []) (valids v.gone));
            aborted = ground (arith, v.aborted);
            told = ground (arith, v.told);
            held = v.held;
          })
    | inr (abort, c) ↦
        (let v =
            unblock-Left q rest (record r { should_abort = r.should_abort ++ t ∷ [] }) r'
              (ground arith) in
          record {
            gone = t ∷ v.gone;
            prefix = ap (◌∷◌ t) v.prefix;
            unblocked = ground (arith, v.unblocked);
            aborted =
                ground (arith, v.aborted, append_assoc r.should_abort (t ∷ []) (aborts v.gone));
            told = ground (arith, v.told);
            held = v.held;
          })
  ]

  -- Trying to unblock a queue takes transactions from its head, and each of them is returned as
  -- unblocked or as aborted by its counters, in the order of the queue; then the queue is empty or
  -- its head waits for a remaster.
  pub try_to_unblock-Left :
      (replica : ℕ) (m m' : SimpleRemasterManager) (r : RemasterOccurredResult)
      → try_to_unblock storage replica (m, no_result) ≡ some (m', r)
      → Left (queue replica m) (queue replica m') no_result r
  unfolding try_to_unblock
  try_to_unblock-Left replica m m' r e = elim (Option-cases (lookup replica m.blocked_queue)) [
    | inl c ↦
        subst
          (λ (x : SimpleRemasterManager × RemasterOccurredResult).
            Left (queue replica m) (queue replica x.0) no_result x.1)
          {x = (m, no_result)} (ground arith)
          (subst (λ q. Left q q no_result no_result) {x = []} (ground arith)
            (stays [] no_result tt))
    | inr (q, c) ↦ elim (Option-cases (unblock storage q no_result)) [
      | inl stopped ↦ absurd (ground arith)
      | inr ((rest, r'), done) ↦
          (let old : q ≡ queue replica m = ground arith in
            let new : rest ≡ queue replica m' =
              ground (arith, lookup-insert replica replica rest m.blocked_queue) in
            let same : r' ≡ r = ground arith in
            subst (λ x. Left x (queue replica m') no_result r) old
              (subst (λ x. Left q x no_result r) new
                (subst (λ x. Left q rest no_result x) same
                  (unblock-Left q rest no_result r' done))))
    ]
  ]

  -- A check of a transaction with keys that returns lets it pass only where nothing waits in the
  -- queue of its home and its counters are valid; it puts it at the end of that queue exactly when
  -- the result is WAITING, and else changes nothing; and it aborts it only for its counters.
  pub verify_master_lem :
      (txn : Transaction) (m m' : SimpleRemasterManager) (result : VerifyMasterResult)
      → is_empty txn.keys ≡ false
      → verify_master storage txn m ≡ some (m', result)
      → let home = to_uint32 txn.internal.home in
        (result ≡ valid → (queue home m ≡ []) × (check_counters storage true txn ≡ some valid))
        × (result ≡ waiting → queue home m' ≡ queue home m ++ txn ∷ [])
        × (result ≡ abort → check_counters storage true txn ≡ some abort)
        × (m' ≡ (if is_waiting result then set_queue home (queue home m ++ txn ∷ []) m else m))
  unfolding verify_master
  verify_master_lem txn m m' result some_keys e =
      elim (Bool-cases (is_empty (queue (to_uint32 txn.internal.home) m))) [
        | inr busy ↦ (
          (λ h. absurd (ground arith)),
          (λ h. ground (arith, pushed)),
          (λ h. absurd (ground arith)),
          ground arith,
        )
        | inl free ↦
            (let none_there = empty_of (queue (to_uint32 txn.internal.home) m) free in
              elim (Option-cases (check_counters storage true txn)) [
                | inl c ↦ absurd (ground arith)
                | inr (waiting, c) ↦ (
                  (λ h. absurd (ground arith)),
                  (λ h. ground (arith, pushed)),
                  (λ h. absurd (ground arith)),
                  ground arith,
                )
                | inr (valid, c) ↦ (
                  (λ h. (none_there, c)),
                  (λ h. absurd (ground arith)),
                  (λ h. absurd (ground arith)),
                  ground arith,
                )
                | inr (abort, c) ↦ (
                  (λ h. absurd (ground arith)),
                  (λ h. absurd (ground arith)),
                  (λ h. c),
                  ground arith,
                )
              ])
      ]
    where
      home : ℕ
      home = to_uint32 txn.internal.home

      pushed :
          lookup home (insert home (queue home m ++ txn ∷ []) m.blocked_queue)
          ≡ some (queue home m ++ txn ∷ [])
      pushed = ground (arith, lookup-insert home home (queue home m ++ txn ∷ []) m.blocked_queue)
