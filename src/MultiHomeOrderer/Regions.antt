-- ===== src/MultiHomeOrderer/Regions.antt =====
-- What the batch of a region holds.
use mathlib.Core.List.{append_assoc, append-nil}
use slog.Base.{
  ℕ, zero, suc, ◌≡◌, sym, ap, ◌∙◌, Bool, some, List, [], ◌∷◌, ◌++◌, nat_eq, nat_Eq, if◌then◌else◌,
  >>=-eq-some, some_inj, arith, guard, not, is_empty,
}
use slog.Txn.{Transaction}
use slog.BatchLog.{Batch}
use slog.Sequencer.{add_to_part}
use slog.MultiHomeOrderer.{MultiHomeOrderer, add_to_regions, add_to_batch}

-- The transactions of a batch, none where there is no batch.
abbrev pub held : ℕ → List (Batch Transaction) → List Transaction
held r [] = []
held zero (b ∷ bs) = b.transactions
held (suc r) (b ∷ bs) = held r bs

-- The transaction, as often as the region is among those that it involves.
abbrev pub copies : Transaction → ℕ → List ℕ → List Transaction
copies txn r [] = []
copies txn r (i ∷ is) = let rest = copies txn r is in if nat_eq i r then txn ∷ rest else rest

held-add_to_part :
    (i r : ℕ) (txn : Transaction) (bs bs' : List (Batch Transaction))
    → add_to_part i txn bs ≡ some bs'
    → held r bs' ≡ held r bs ++ (if nat_eq i r then txn ∷ [] else [])
held-add_to_part i r txn [] bs' e = absurd (ground arith)
held-add_to_part zero zero txn (b ∷ bs) bs' e = ap (held zero) (sym (some_inj e))
held-add_to_part zero (suc r) txn (b ∷ bs) bs' e =
    ap (held (suc r)) (sym (some_inj e)) ∙ sym (append-nil (held r bs)) ∙ ground arith
held-add_to_part (suc i) zero txn (b ∷ bs) bs' e =
    let (bs₁, added, rest) = >>=-eq-some (add_to_part i txn bs) _ e in
    ap (held zero) (sym (some_inj rest)) ∙ sym (append-nil b.transactions) ∙ ground arith
held-add_to_part (suc i) (suc r) txn (b ∷ bs) bs' e =
    let (bs₁, added, rest) = >>=-eq-some (add_to_part i txn bs) _ e in
    ap (held (suc r)) (sym (some_inj rest)) ∙ held-add_to_part i r txn bs bs₁ added ∙ ground arith

held-add_to_regions :
    (r : ℕ) (txn : Transaction) (is : List ℕ) (bs bs' : List (Batch Transaction))
    → add_to_regions txn is bs ≡ some bs'
    → held r bs' ≡ held r bs ++ copies txn r is
unfolding add_to_regions
held-add_to_regions r txn [] bs bs' e =
    ap (held r) (sym (some_inj e)) ∙ sym (append-nil (held r bs))
held-add_to_regions r txn (i ∷ is) bs bs' e =
    let (bs₁, added, rest) = >>=-eq-some (add_to_part i txn bs) _ e in
    held-add_to_regions r txn is bs₁ bs' rest
    ∙ ap (λ x. x ++ copies txn r is) (held-add_to_part i r txn bs bs₁ added)
    ∙ append_assoc (held r bs) (if nat_eq i r then txn ∷ [] else []) (copies txn r is)
    ∙ ground arith

-- Where a transaction is taken in, the batch of each region that it involves gets it at its end, once
-- for each time that the region is named, and the batches of the other regions stay as they are.
pub held-add_to_batch :
    (txn : Transaction) (o o' : MultiHomeOrderer) (timer : Bool) (r : ℕ)
    → add_to_batch txn o ≡ some (o', timer)
    → held r o'.batch_per_rep
      ≡ held r o.batch_per_rep ++ copies txn r txn.internal.involved_replicas
unfolding add_to_batch
held-add_to_batch txn o o' timer r e =
    let (u, some_region, rest) =
      >>=-eq-some (guard (not (is_empty txn.internal.involved_replicas))) _ e in
    let (bs, added, rest') =
      >>=-eq-some (add_to_regions txn txn.internal.involved_replicas o.batch_per_rep) _ rest in
    sym (ap (λ x. held r x.0.batch_per_rep) (some_inj rest'))
    ∙ held-add_to_regions r txn txn.internal.involved_replicas o.batch_per_rep bs added
