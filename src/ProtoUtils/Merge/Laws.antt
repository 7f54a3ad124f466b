-- ===== src/ProtoUtils/Merge/Laws.antt =====
-- When two transactions merge, and what the merged one holds.
use slog.Base.{
  ℕ, ◌≡◌, ◌≢◌, ◌⊎◌, ◌↔◌, refl, ap, subst, ◌∙◌, true, false, ◌||◌, Option, none, some, List, [], ◌∷◌,
  ◌++◌, nat_eq, elem, bytes_Eq, nat_Eq, list_eq_iff, sort_unique, if◌then◌else◌, arith, inl, inr,
  Bool-cases, Increasing, sort_unique-Increasing, elem-sort_unique, elem-append, ◌==◌,
}
use slog.Txn.{KeyValueEntry, ValueEntry, TransactionType, Transaction}
use slog.ProtoUtils.Merge.{
  type_number, is_aborted, key_names, missing, merge_results, merge_internal, merge_transaction,
}

-- The entry of a key, the first one if there are several.
abbrev pub find : List ℕ → List KeyValueEntry → Option ValueEntry
find key [] = none
find key (kv ∷ kvs) = if kv.key == key then some kv.value_entry else find key kvs

abbrev pub or_else : Option ValueEntry → Option ValueEntry → Option ValueEntry
or_else none b = b
or_else (some v) b = some v

find-append :
    (k : List ℕ) (xs ys : List KeyValueEntry) → find k (xs ++ ys) ≡ or_else (find k xs) (find k ys)
find-append k [] ys = refl
find-append k (x ∷ xs) ys = ground (arith, find-append k xs ys)

find_absent :
    (k : List ℕ) (xs : List KeyValueEntry) → elem k (key_names xs) ≡ false → find k xs ≡ none
find_absent k [] h = refl
find_absent k (x ∷ xs) h = ground (arith, find_absent k xs)

find_present :
    (k : List ℕ) (xs : List KeyValueEntry)
    → elem k (key_names xs) ≡ true
    → (v : ValueEntry) × (find k xs ≡ some v)
find_present k [] h = absurd (ground arith)
find_present k (x ∷ xs) h = elim (Bool-cases (x.key == k)) [
  | inl here ↦ (x.value_entry, ground arith)
  | inr later ↦ (let (v, e) = find_present k xs (ground arith) in (v, ground arith))
]

find-missing :
    (k : List ℕ) (names : List (List ℕ)) (ys : List KeyValueEntry)
    → elem k names ≡ false
    → find k (missing names ys) ≡ find k ys
find-missing k names [] h = refl
find-missing k names (y ∷ ys) h = elim (Bool-cases (y.key == k)) [
  | inl here ↦
      (let same : y.key ≡ k = (list_eq_iff y.key k).0 here in
        ground (arith, ap (λ x. elem x names) same))
  | inr other ↦ ground (arith, find-missing k names ys)
]

find-merged :
    (k : List ℕ) (xs ys : List KeyValueEntry)
    → find k (xs ++ missing (key_names xs) ys) ≡ or_else (find k xs) (find k ys)
find-merged k xs ys = elim (Bool-cases (elem k (key_names xs))) [
  | inl there ↦
      (let (v, e) = find_present k xs there in
        ground (arith, find-append k xs (missing (key_names xs) ys), e))
  | inr absent ↦ ground (
    arith,
    find-append k xs (missing (key_names xs) ys),
    find_absent k xs absent,
    find-missing k (key_names xs) ys absent,
  )
]

type_number_inj : (a b : TransactionType) → type_number a ≡ type_number b → a ≡ b
type_number_inj TransactionType.unknown TransactionType.unknown h = refl
type_number_inj TransactionType.single_home TransactionType.single_home h = refl
type_number_inj TransactionType.multi_home_or_lock_only TransactionType.multi_home_or_lock_only h =
    refl
type_number_inj TransactionType.unknown TransactionType.single_home h = absurd (ground arith)
type_number_inj TransactionType.unknown TransactionType.multi_home_or_lock_only h =
    absurd (ground arith)
type_number_inj TransactionType.single_home TransactionType.unknown h = absurd (ground arith)
type_number_inj TransactionType.single_home TransactionType.multi_home_or_lock_only h =
    absurd (ground arith)
type_number_inj TransactionType.multi_home_or_lock_only TransactionType.unknown h =
    absurd (ground arith)
type_number_inj TransactionType.multi_home_or_lock_only TransactionType.single_home h =
    absurd (ground arith)

-- A merge throws exactly when the transactions differ in their ids or in their types.
pub merge_transaction-none :
    (txn other : Transaction)
    → (merge_transaction txn other ≡ none)
      ↔ ((txn.internal.id ≢ other.internal.id) ⊎ (txn.internal.type ≢ other.internal.type))
unfolding merge_transaction
merge_transaction-none txn other = (
  (λ h. elim (Bool-cases (nat_eq txn.internal.id other.internal.id)) [
    | inr ids ↦ inl (λ e. absurd (ground arith))
    | inl ids ↦ inr (λ e. absurd (ground (arith, ap type_number e)))
  ]),
  (λ h. elim h [
    | inl ids ↦ ground arith
    | inr types ↦
        elim (Bool-cases
          (nat_eq (type_number txn.internal.type) (type_number other.internal.type))) [
            | inl same ↦
                absurd
                  (types (type_number_inj txn.internal.type other.internal.type (ground arith)))
            | inr differ ↦ ground arith
          ]
  ]),
)

-- A merged transaction is aborted exactly when one of the two is; if neither is, it has for each key
-- the entry of the first transaction, or else that of the other; and its regions are those of the
-- two, each once and in order.
pub merge_transaction_lem :
    (txn other merged : Transaction)
    → merge_transaction txn other ≡ some merged
    → (is_aborted merged ≡ is_aborted txn || is_aborted other)
      × (is_aborted merged ≡ false
          → (k : List ℕ) → find k merged.keys ≡ or_else (find k txn.keys) (find k other.keys))
      × Increasing merged.internal.involved_replicas
      × ((r : ℕ)
          → elem r merged.internal.involved_replicas
            ≡ elem r txn.internal.involved_replicas || elem r other.internal.involved_replicas)
unfolding merge_transaction
merge_transaction_lem txn other merged e =
    let is : merge_internal (merge_results txn other) other ≡ merged = ground arith in
    let regions = txn.internal.involved_replicas ++ other.internal.involved_replicas in
    let of_both : sort_unique regions ≡ merged.internal.involved_replicas = ground arith in
    (
      ground arith,
      (λ alive k. ground (arith, find-merged k txn.keys other.keys)),
      subst Increasing of_both (sort_unique-Increasing regions),
      (λ r.
          subst
            (λ xs.
              elem r xs
              ≡ elem r txn.internal.involved_replicas || elem r other.internal.involved_replicas)
            of_both
            (elem-sort_unique r regions
              ∙ elem-append r txn.internal.involved_replicas other.internal.involved_replicas)),
    )
