-- ===== src/Interleaver/Drained.antt =====
-- After a message, an interleaver has handed on all that is ready.
use slog.Base.{
  ℕ, zero, suc, ◌≤◌, ◌≡◌, refl, ap, subst, ◌∙◌, Option, some, List, [], ◌∷◌, ◌++◌, nat_Eq, length,
  ◌>>=◌, >>=-eq-some, some_inj, Map, All, lookup, erase_key, arith, inl, inr, ◌⊎◌, ℤ, pos, ◌-ℤ◌,
}
use slog.Txn.{Transaction}
use slog.BatchLog
use slog.BatchLog.{Batch, BatchLog}
use slog.LocalLog
use slog.LocalLog.{LocalLog}
use slog.Interleaver.{
  Interleaver, Settings, Request, Sent, log_of, set_log, announce, advance_local, drain, drain_logs,
  advance_logs, process, on_request,
}

List-cases {ℓ} :
    {A : Type ℓ} (xs : List A) → (xs ≡ []) ⊎ ((x : A) × (rest : List A) × (xs ≡ x ∷ rest))
List-cases [] = inl refl
List-cases (x ∷ xs) = inr (x, xs, refl)

advance_local-empty :
    (c : Settings) (fuel : ℕ) (i i' : Interleaver) (sent : List Sent)
    → length i.local_log.ready_batches ≤ fuel
    → advance_local c fuel i ≡ some (i', sent)
    → i'.local_log.ready_batches ≡ []
unfolding advance_local LocalLog.next_batch
advance_local-empty c zero i i' sent h e = elim (List-cases i.local_log.ready_batches) [
  | inl empty ↦ subst (λ x. x.local_log.ready_batches ≡ []) (ap (λ x. x.0) (some_inj e)) empty
  | inr (x, rest, is) ↦ absurd (omega (arith, ap length is))
]
advance_local-empty c (suc fuel) i i' sent h e = elim (List-cases i.local_log.ready_batches) [
  | inl empty ↦
      (let stays : i ≡ i' = ground arith in subst (λ x. x.local_log.ready_batches ≡ []) stays empty)
  | inr (x, rest, is) ↦
      (let i₁ = record i { local_log = record i.local_log { ready_batches = rest } } in
        let outcome : Option (Interleaver × List Sent) = (do
          log ←
              BatchLog.add_slot x.0 x.1.0 (pos c.replication_factor -ℤ pos 1)
                (log_of c.local_replica i₁)
          (i₂, sent₂) ← advance_local c fuel (set_log c.local_replica log i₁)
          some (i₂, announce c x.0 x.1.0 x.1.1 ++ sent₂)) in
        let round : outcome ≡ some (i', sent) = ground arith in
        let (log, added, rest₁) =
          >>=-eq-some
            (BatchLog.add_slot x.0 x.1.0 (pos c.replication_factor -ℤ pos 1)
              (log_of c.local_replica i₁))
            _ round in
        let ((i₂, sent₂), more, last) =
          >>=-eq-some (advance_local c fuel (set_log c.local_replica log i₁)) _ rest₁ in
        subst (λ y. y.local_log.ready_batches ≡ []) (ap (λ y. y.0) (some_inj last))
          (advance_local-empty c fuel (set_log c.local_replica log i₁) i₂ sent₂
            (omega (arith, ap length is)) more))
]

drain-empty :
    (fuel : ℕ) (log log' : BatchLog Transaction) (batches : List (Batch Transaction))
    → length log.ready_batches ≤ fuel
    → drain fuel log ≡ some (log', batches)
    → log'.ready_batches ≡ []
unfolding drain BatchLog.next_batch
drain-empty zero log log' batches h e = elim (List-cases log.ready_batches) [
  | inl empty ↦ subst (λ x. x.ready_batches ≡ []) (ap (λ x. x.0) (some_inj e)) empty
  | inr (x, rest, is) ↦ absurd (omega (arith, ap length is))
]
drain-empty (suc fuel) log log' batches h e = elim (List-cases log.ready_batches) [
  | inl empty ↦
      (let stays : log ≡ log' = ground arith in subst (λ x. x.ready_batches ≡ []) stays empty)
  | inr (x, rest, is) ↦
      (let outcome : Option (BatchLog Transaction × List (Batch Transaction)) = (do
        b ← lookup x.1 log.batches
        (log₂, more) ←
            drain fuel (record log { ready_batches = rest; batches = erase_key x.1 log.batches })
        some (log₂, b ∷ more)) in
        let round : outcome ≡ some (log', batches) = ground arith in
        let (b, there, rest₁) = >>=-eq-some (lookup x.1 log.batches) _ round in
        let log₁ = record log { ready_batches = rest; batches = erase_key x.1 log.batches } in
        let ((log₂, more), drains, last) = >>=-eq-some (drain fuel log₁) _ rest₁ in
        subst (λ y. y.ready_batches ≡ []) (ap (λ y. y.0) (some_inj last))
          (drain-empty fuel log₁ log₂ more (omega (arith, ap length is)) drains))
]

-- No batch is ready in the log.
abbrev pub IsEmpty : ℕ × BatchLog Transaction → Type 0
IsEmpty (home, log) = log.ready_batches ≡ []

drain_logs-IsEmpty :
    (logs logs' : Map ℕ (BatchLog Transaction)) (sent : List Sent)
    → drain_logs logs ≡ some (logs', sent)
    → All IsEmpty logs'
unfolding drain_logs
drain_logs-IsEmpty [] logs' sent e = subst (λ x. All IsEmpty x.0) (some_inj e) tt
drain_logs-IsEmpty ((home, log) ∷ logs) logs' sent e =
    let ((log₁, batches), first, rest) = >>=-eq-some (drain (length log.ready_batches) log) _ e in
    let ((logs₁, sent₁), more, last) = >>=-eq-some (drain_logs logs) _ rest in
    subst (λ x. All IsEmpty x.0) (some_inj last)
      (
        drain-empty (length log.ready_batches) log log₁ batches (omega arith) first,
        drain_logs-IsEmpty logs logs₁ sent₁ more,
      )

-- The loops of AdvanceLogs end by their own tests: after any message that an interleaver handles, no
-- batch is ready in the local log, nor in any of the single-home logs.
pub on_request-IsEmpty :
    (c : Settings) (from : ℤ) (request : Request) (i i' : Interleaver) (sent : List Sent)
    → on_request c from request i ≡ some (i', sent)
    → (i'.local_log.ready_batches ≡ []) × All IsEmpty i'.single_home_logs
unfolding on_request advance_logs
on_request-IsEmpty c from request i i' sent e =
    let ((i₁, sent₁), first, rest) = >>=-eq-some (process c from request i) _ e in
    let ((i₂, sent₂), more, last) = >>=-eq-some (advance_logs c i₁) _ rest in
    let ((i₃, sent₃), advanced, rest₁) =
      >>=-eq-some (advance_local c (length i₁.local_log.ready_batches) i₁) _ more in
    let ((logs, sent₄), drained, rest₂) = >>=-eq-some (drain_logs i₃.single_home_logs) _ rest₁ in
    let is : record i₃ { single_home_logs = logs } ≡ i' =
      ap (λ x. x.0) (some_inj rest₂) ∙ ap (λ x. x.0) (some_inj last) in
    (
      subst (λ x. x.local_log.ready_batches ≡ []) is
          (advance_local-empty c (length i₁.local_log.ready_batches) i₁ i₃ sent₃ (omega arith)
            advanced),
      subst (λ x. All IsEmpty x.single_home_logs) is
          (drain_logs-IsEmpty i₃.single_home_logs logs sent₄ drained),
    )
