-- ===== src/Scheduler/Active.antt =====
-- The active transactions of a scheduler, against those that its lock manager knows.
use slog.Base.{
  ℕ, ◌≡◌, refl, ap, ◌∙◌, Bool, true, false, Option, none, some, nat_eq, nat_Eq, if◌then◌else◌, Map,
  lookup, insert, erase_key, lookup-insert, lookup-erase_key, arith, Bool-cases, inl, inr,
}
use slog.TxnHolder.{TxnHolder}
use slog.Scheduler.{LockManager, Outcome, ◌>>=◌, check, Scheduler}

-- What holds of the result, if there is one; a missing transaction is ruled out.
abbrev pub Holds : {A : Type 0} → (A → Type 0) → Outcome A → Type 0
Holds P (Outcome.returns a) = P a
Holds P Outcome.fails = Unit
Holds P Outcome.missing_txn = ⊥

pub Holds-bind :
    {A B : Type 0} (P : A → Type 0) (Q : B → Type 0) (o : Outcome A) (f : A → Outcome B)
    → Holds P o
    → ((a : A) → P a → Holds Q (f a))
    → Holds Q (o >>= f)
Holds-bind P Q (Outcome.returns a) f h k = k a h
Holds-bind P Q Outcome.fails f h k = tt
Holds-bind P Q Outcome.missing_txn f h k = h

pub Holds-imp :
    {A : Type 0} (P Q : A → Type 0) (o : Outcome A) → ((a : A) → P a → Q a) → Holds P o → Holds Q o
Holds-imp P Q (Outcome.returns a) k h = k a h
Holds-imp P Q Outcome.fails k h = tt
Holds-imp P Q Outcome.missing_txn k h = h

pub Holds-if :
    {A : Type 0} (P : A → Type 0) (c : Bool) (o o' : Outcome A)
    → Holds P o
    → Holds P o'
    → Holds P (if c then o else o')
Holds-if P true o o' h h' = h
Holds-if P false o o' h h' = h'

pub Holds-check : {A : Type 0} (o : Option A) → Holds (λ a. o ≡ some a) (check o)
Holds-check none = tt
Holds-check (some a) = refl

module _ {S : Type 0} (m : LockManager S) where
  -- The transactions that the lock manager knows are active, and none of them is aborting.
  pub record Inv (lm : S) (active : Map ℕ TxnHolder) : Type 0 where
    pub known : (j : ℕ) → m.tracks j lm ≡ true → (h : TxnHolder) × (lookup j active ≡ some h)
    pub aborting :
        (j : ℕ) (h : TxnHolder)
        → lookup j active ≡ some h
        → h.aborting ≡ true
        → m.tracks j lm ≡ false

  abbrev pub Good : Scheduler S → Type 0
  Good s = Inv s.lock_manager s.active_txns

  -- A holder in the place of one that is aborting exactly if it is.
  pub insert-Inv :
      (t : ℕ) (h h' : TxnHolder) (lm : S) (active : Map ℕ TxnHolder)
      → Inv lm active
      → lookup t active ≡ some h
      → h'.aborting ≡ h.aborting
      → Inv lm (insert t h' active)
  insert-Inv t h h' lm active v there same = record {
    known = λ j tracked. elim (Bool-cases (nat_eq t j)) [
      | inl here ↦ (h', lookup-insert t j h' active ∙ ground arith)
      | inr other ↦
          (let (k, found) = v.known j tracked in (k, lookup-insert t j h' active ∙ ground arith))
    ];
    aborting = λ j k found aborts. elim (Bool-cases (nat_eq t j)) [
      | inl here ↦ v.aborting j h (ground arith) (ground (arith, lookup-insert t j h' active))
      | inr other ↦ v.aborting j k (ground (arith, lookup-insert t j h' active)) aborts
    ];
  }

  -- A holder that is not aborting, for a transaction that may be new.
  pub add-Inv :
      (t : ℕ) (h' : TxnHolder) (lm : S) (active : Map ℕ TxnHolder)
      → Inv lm active
      → h'.aborting ≡ false
      → Inv lm (insert t h' active)
  add-Inv t h' lm active v alive = record {
    known = λ j tracked. elim (Bool-cases (nat_eq t j)) [
      | inl here ↦ (h', lookup-insert t j h' active ∙ ground arith)
      | inr other ↦
          (let (k, found) = v.known j tracked in (k, lookup-insert t j h' active ∙ ground arith))
    ];
    aborting = λ j k found aborts. elim (Bool-cases (nat_eq t j)) [
      | inl here ↦ absurd (ground (arith, lookup-insert t j h' active))
      | inr other ↦ v.aborting j k (ground (arith, lookup-insert t j h' active)) aborts
    ];
  }

  pub erase_key-Inv :
      (t : ℕ) (lm : S) (active : Map ℕ TxnHolder)
      → Inv lm active
      → m.tracks t lm ≡ false
      → Inv lm (erase_key t active)
  erase_key-Inv t lm active v gone = record {
    known = λ j tracked. elim (Bool-cases (nat_eq t j)) [
      | inl here ↦ absurd (ground (arith, ap (λ x. m.tracks x lm) ((nat_Eq.same_iff t j).0 here)))
      | inr other ↦
          (let (k, found) = v.known j tracked in (k, lookup-erase_key t j active ∙ ground arith))
    ];
    aborting = λ j k found aborts. elim (Bool-cases (nat_eq t j)) [
      | inl here ↦ absurd (ground (arith, lookup-erase_key t j active))
      | inr other ↦ v.aborting j k (ground (arith, lookup-erase_key t j active)) aborts
    ];
  }
