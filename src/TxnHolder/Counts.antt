-- ===== src/TxnHolder/Counts.antt =====
-- The count of a TxnHolder's transactions, over any calls.
use slog.Base.{
  ℕ, zero, suc, ◌+◌, ◌≤◌, ◌≡◌, refl, subst, Bool, ◌&&◌, Option, none, some, List, [], ◌∷◌,
  if◌then◌else◌, length, ◌>>=◌, nat_eq, arith, Option-cases, inl, inr, >>=-eq-some,
}
use slog.Txn.{Transaction}
use slog.TxnHolder.{
  TxnHolder, nulls, slot, reset, index, new_holder, add_lock_only_txn, set_remaster_result,
  set_done, set_aborting, inc_num_dispatches, is_ready_for_gc,
}

-- The regions of which a transaction is there.
abbrev pub filled : List (Option Transaction) → ℕ
filled [] = 0
filled (none ∷ ts) = filled ts
filled (some t ∷ ts) = suc (filled ts)

filled-nulls : (n : ℕ) → filled (nulls n) ≡ 0
filled-nulls zero = refl
filled-nulls (suc n) = filled-nulls n

length-nulls : (n : ℕ) → length (nulls n) ≡ n
length-nulls zero = refl
length-nulls (suc n) = omega (arith, length-nulls n)

filled-reset :
    (i : ℕ) (txn : Transaction) (ts : List (Option Transaction))
    → slot i ts ≡ some none
    → filled (reset i txn ts) ≡ suc (filled ts)
filled-reset i txn [] h = absurd (ground arith)
filled-reset zero txn (none ∷ ts) h = refl
filled-reset zero txn (some t ∷ ts) h = absurd (ground arith)
filled-reset (suc i) txn (none ∷ ts) h = filled-reset i txn ts h
filled-reset (suc i) txn (some t ∷ ts) h = omega (arith, filled-reset i txn ts h)

length-reset :
    (i : ℕ) (txn : Transaction) (ts : List (Option Transaction))
    → length (reset i txn ts) ≡ length ts
length-reset i txn [] = refl
length-reset zero txn (t ∷ ts) = refl
length-reset (suc i) txn (t ∷ ts) = omega (arith, length-reset i txn ts)

filled-le-length : (ts : List (Option Transaction)) → filled ts ≤ length ts
filled-le-length [] = omega arith
filled-le-length (none ∷ ts) = omega (arith, filled-le-length ts)
filled-le-length (some t ∷ ts) = omega (arith, filled-le-length ts)

slot-nulls : (i n : ℕ) (t : Option Transaction) → slot i (nulls n) ≡ some t → t ≡ none
slot-nulls i zero t h = absurd (ground arith)
slot-nulls zero (suc n) t h = ground arith
slot-nulls (suc i) (suc n) t h = slot-nulls i n t h

-- The calls on a holder that change it, other than `FinalizeAndRelease`.
pub data Call : Type 0 where
  adds : Transaction → Call
  sets_remaster_result : List ℕ → ℕ → Call
  sets_done sets_aborting dispatches : Call

-- The holder after the calls, with the number of lock-only transactions that were taken in.
unfoldable pub run : List Call → TxnHolder → Option (TxnHolder × ℕ)
run [] h = some (h, 0)
run (adds txn ∷ cs) h = do
  (h', added) ← add_lock_only_txn txn h
  (last, n) ← run cs h'
  some (last, (if added then 1 else 0) + n)
run (sets_remaster_result key counter ∷ cs) h = run cs (set_remaster_result key counter h)
run (sets_done ∷ cs) h = run cs (set_done h)
run (sets_aborting ∷ cs) h = run cs (set_aborting h)
run (dispatches ∷ cs) h = run cs (inc_num_dispatches h)

pub record Inv (num_replicas expected : ℕ) (h : TxnHolder) : Type 0 where
  pub size : length h.lo_txns ≡ num_replicas
  pub counted : h.num_lo_txns ≡ filled h.lo_txns
  pub expects : h.expected_num_lo_txns ≡ expected

module _ (r x : ℕ) where
  add-Inv :
      (txn : Transaction) (h h' : TxnHolder) (added : Bool)
      → Inv r x h
      → add_lock_only_txn txn h ≡ some (h', added)
      → Inv r x h' × (h'.num_lo_txns ≡ h.num_lo_txns + (if added then 1 else 0))
  unfolding add_lock_only_txn
  add-Inv txn h h' added v e = elim (Option-cases (slot (index txn) h.lo_txns)) [
    | inl beyond ↦ absurd (ground arith)
    | inr (some t, there) ↦ (subst (Inv r x) {x = h} (ground arith) v, ground arith)
    | inr (none, free) ↦
        (let more : TxnHolder = record h {
          lo_txns = reset (index txn) txn h.lo_txns;
          num_lo_txns = h.num_lo_txns + 1;
        } in
          (
            subst (Inv r x) {x = more} (ground arith) (record {
              size = ground (arith, length-reset (index txn) txn h.lo_txns, v.size);
              counted = ground (arith, filled-reset (index txn) txn h.lo_txns free, v.counted);
              expects = v.expects;
            }),
            ground arith,
          ))
  ]

  run-Inv :
      (cs : List Call) (h last : TxnHolder) (n : ℕ)
      → Inv r x h
      → run cs h ≡ some (last, n)
      → Inv r x last × (last.num_lo_txns ≡ h.num_lo_txns + n)
  unfolding run
  run-Inv [] h last n v e = (subst (Inv r x) {x = h} (ground arith) v, ground arith)
  run-Inv (adds txn ∷ cs) h last n v e =
      let ((h', added), first, rest) =
        >>=-eq-some (add_lock_only_txn txn h)
          (λ p. run cs p.0 >>= λ q. some (q.0, (if p.1 then 1 else 0) + q.1)) e in
      let ((last', m), ran, done) =
        >>=-eq-some (run cs h') (λ q. some (q.0, (if added then 1 else 0) + q.1)) rest in
      let (v', one) = add-Inv txn h h' added v first in
      let (v'', more) = run-Inv cs h' last' m v' ran in
      (subst (Inv r x) {x = last'} (ground arith) v'', ground (arith, one, more))
  run-Inv (sets_remaster_result k c ∷ cs) h last n v e =
      run-Inv cs (set_remaster_result k c h) last n
        (record { size = v.size; counted = v.counted; expects = v.expects }) e
  run-Inv (sets_done ∷ cs) h last n v e =
      run-Inv cs (set_done h) last n
        (record { size = v.size; counted = v.counted; expects = v.expects }) e
  run-Inv (sets_aborting ∷ cs) h last n v e =
      run-Inv cs (set_aborting h) last n
        (record { size = v.size; counted = v.counted; expects = v.expects }) e
  run-Inv (dispatches ∷ cs) h last n v e =
      run-Inv cs (inc_num_dispatches h) last n
        (record { size = v.size; counted = v.counted; expects = v.expects }) e

new_holder-Inv :
    (num_replicas : ℕ) (txn : Transaction) (h : TxnHolder)
    → new_holder num_replicas txn ≡ some h
    → Inv num_replicas (length txn.internal.involved_replicas) h × (h.num_lo_txns ≡ 1)
unfolding new_holder
new_holder-Inv n txn h e = elim (Option-cases (slot (index txn) (nulls n))) [
  | inl beyond ↦ absurd (ground arith)
  | inr (t, there) ↦
      (let free : slot (index txn) (nulls n) ≡ some none =
          ground (arith, slot-nulls (index txn) n t there) in
        let lo : reset (index txn) txn (nulls n) ≡ h.lo_txns = ground arith in
        (
          record {
            size = ground (arith, length-reset (index txn) txn (nulls n), length-nulls n);
            counted = ground (arith, filled-reset (index txn) txn (nulls n) free, filled-nulls n);
            expects = ground arith;
          },
          ground arith,
        ))
]

-- Whatever is done with a holder before `FinalizeAndRelease`, the number of its transactions is
-- one more than the number of lock-only transactions that were taken in, and is the number of
-- regions of which one is there, so at most that of all regions; and the holder is ready for
-- collection exactly when it is done and has a transaction from as many regions as the transaction
-- involves.
pub run-filled :
    (num_replicas : ℕ) (txn : Transaction) (h last : TxnHolder) (cs : List Call) (n : ℕ)
    → new_holder num_replicas txn ≡ some h
    → run cs h ≡ some (last, n)
    → (last.num_lo_txns ≡ 1 + n)
      × (last.num_lo_txns ≡ filled last.lo_txns)
      × (last.num_lo_txns ≤ num_replicas)
      × (is_ready_for_gc last
          ≡ (last.done && nat_eq (filled last.lo_txns) (length txn.internal.involved_replicas)))
run-filled r txn h last cs n start e =
    let (v, one) = new_holder-Inv r txn h start in
    let (v', more) = run-Inv r (length txn.internal.involved_replicas) cs h last n v e in
    (
      omega (arith, one, more),
      v'.counted,
      omega (arith, v'.counted, v'.size, filled-le-length last.lo_txns),
      ground (arith, v'.counted, v'.expects),
    )
