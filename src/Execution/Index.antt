-- ===== src/Execution/Index.antt =====
-- The keys of a transaction while its procedures run, and the index of the keys.
use slog.Base.{
  ℕ, zero, suc, ◌+◌, ◌≡◌, refl, ap, subst, Bool, true, false, not, ◌&&◌, ◌||◌, Option, none, some,
  List, [], ◌∷◌, list_eq, get_elem?, Map, has, lookup, insert, lookup-insert, bytes_Eq,
  if◌then◌else◌, arith, ◌==◌, Bool-cases, inl, inr,
}
use slog.Txn.{KeyValueEntry}
use slog.ProtoUtils.Partition.{is_write}
use slog.ProtoUtils.Merge.Laws.{find}
use slog.Execution.{key_index, set_new_value, eq_word}

-- Only the new value differs, and only in an entry to write.
pub record SameEntry (a b : KeyValueEntry) : Type 0 where
  pub key : b.key ≡ a.key
  pub value : b.value_entry.value ≡ a.value_entry.value
  pub type : b.value_entry.type ≡ a.value_entry.type
  pub metadata : b.value_entry.optional_metadata ≡ a.value_entry.optional_metadata
  pub new_value :
      is_write a.value_entry.type ≡ false → b.value_entry.new_value ≡ a.value_entry.new_value

abbrev pub SameKeys : List KeyValueEntry → List KeyValueEntry → Type 0
SameKeys [] [] = Unit
SameKeys (a ∷ more) (b ∷ others) = SameEntry a b × SameKeys more others
SameKeys _ _ = ⊥

-- A procedure that compares a key of the transaction with a value that it does not have.
abbrev pub mismatched : List KeyValueEntry → List (List ℕ) → Bool
mismatched keys (word ∷ key ∷ wanted ∷ args) =
    list_eq word eq_word
    && elim (find key keys) [ none ↦ false | some v ↦ not (list_eq v.value wanted) ]
mismatched keys _ = false

abbrev pub any_mismatched : List KeyValueEntry → List (List (List ℕ)) → Bool
any_mismatched keys [] = false
any_mismatched keys (p ∷ ps) = mismatched keys p || any_mismatched keys ps

pub SameKeys-refl : (keys : List KeyValueEntry) → SameKeys keys keys
SameKeys-refl [] = tt
SameKeys-refl (kv ∷ kvs) = (
  record { key = refl; value = refl; type = refl; metadata = refl; new_value = λ h. refl },
  SameKeys-refl kvs,
)

pub set_new_value-SameKeys :
    (i : ℕ) (v : List ℕ) (keys ks : List KeyValueEntry) (kv : KeyValueEntry)
    → SameKeys keys ks
    → get_elem? ks i ≡ some kv
    → is_write kv.value_entry.type ≡ true
    → SameKeys keys (set_new_value i v ks)
set_new_value-SameKeys i v [] [] kv h e w = tt
set_new_value-SameKeys i v [] (k ∷ ks) kv h e w = absurd h
set_new_value-SameKeys i v (a ∷ keys) [] kv h e w = absurd h
set_new_value-SameKeys zero v (a ∷ keys) (k ∷ ks) kv h e w = (
  record {
    key = h.0.key;
    value = h.0.value;
    type = h.0.type;
    metadata = h.0.metadata;
    new_value = λ r. absurd (ground (arith, h.0.type));
  },
  h.1,
)
set_new_value-SameKeys (suc i) v (a ∷ keys) (k ∷ ks) kv h e w =
    (h.0, set_new_value-SameKeys i v keys ks kv h.1 e w)

pub get_elem?-SameKeys :
    (i : ℕ) (keys ks : List KeyValueEntry) (a b : KeyValueEntry)
    → SameKeys keys ks
    → get_elem? keys i ≡ some a
    → get_elem? ks i ≡ some b
    → SameEntry a b
get_elem?-SameKeys i [] ks a b h e f = absurd (ground arith)
get_elem?-SameKeys i (k ∷ keys) [] a b h e f = absurd h
get_elem?-SameKeys zero (k ∷ keys) (j ∷ ks) a b h e f =
    subst (λ x. SameEntry x b) {x = k} (ground arith)
      (subst (λ x. SameEntry k x) {x = j} (ground arith) h.0)
get_elem?-SameKeys (suc i) (k ∷ keys) (j ∷ ks) a b h e f = get_elem?-SameKeys i keys ks a b h.1 e f

-- The position of the first entry of a key.
abbrev position : List ℕ → ℕ → List KeyValueEntry → Option ℕ
position key i [] = none
position key i (kv ∷ kvs) = if kv.key == key then some i else position key (suc i) kvs

abbrev first : Option ℕ → Option ℕ → Option ℕ
first none b = b
first (some i) b = some i

index_step :
    (k : List ℕ) (i : ℕ) (kv : KeyValueEntry) (index : Map (List ℕ) ℕ)
    → lookup k (if has kv.key index then index else insert kv.key i index)
      ≡ first (lookup k index) (if kv.key == k then some i else none)
index_step k i kv index = elim (Bool-cases (kv.key == k)) [
  | inl same ↦
      (let eq : lookup kv.key index ≡ lookup k index =
          ap (λ x. lookup x index) ((bytes_Eq.same_iff kv.key k).0 same) in
        ground (arith, lookup-insert kv.key k i index, eq))
  | inr other ↦ ground (arith, lookup-insert kv.key k i index)
]

lookup-key_index :
    (k : List ℕ) (i : ℕ) (kvs : List KeyValueEntry) (index : Map (List ℕ) ℕ)
    → lookup k (key_index i kvs index) ≡ first (lookup k index) (position k i kvs)
unfolding key_index
lookup-key_index k i [] index = ground arith
lookup-key_index k i (kv ∷ kvs) index =
    let next = if has kv.key index then index else insert kv.key i index in
    ground (arith, lookup-key_index k (suc i) kvs next, index_step k i kv index)

position-some :
    (k : List ℕ) (i j : ℕ) (kvs : List KeyValueEntry)
    → position k i kvs ≡ some j
    → (d : ℕ) × (a : KeyValueEntry) × (j ≡ i + d)
      × (get_elem? kvs d ≡ some a)
      × (find k kvs ≡ some a.value_entry)
position-some k i j [] e = absurd (ground arith)
position-some k i j (kv ∷ kvs) e = elim (Bool-cases (kv.key == k)) [
  | inl here ↦ (0, kv, ground arith, refl, ground arith)
  | inr later ↦
      (let (d, a, at, there, found) = position-some k (suc i) j kvs (ground arith) in
        (suc d, a, omega arith, there, ground arith))
]

position-none :
    (k : List ℕ) (i : ℕ) (kvs : List KeyValueEntry) → position k i kvs ≡ none → find k kvs ≡ none
position-none k i [] e = refl
position-none k i (kv ∷ kvs) e = ground (arith, position-none k (suc i) kvs)

-- The index of the keys of a transaction
abbrev pub index_of : List KeyValueEntry → Map (List ℕ) ℕ
index_of keys = key_index 0 keys []

pub indexed_some :
    (k : List ℕ) (i : ℕ) (keys : List KeyValueEntry)
    → lookup k (index_of keys) ≡ some i
    → (a : KeyValueEntry) × (get_elem? keys i ≡ some a) × (find k keys ≡ some a.value_entry)
unfolding lookup
indexed_some k i keys e =
    let (d, a, at, there, found) =
      position-some k 0 i keys (ground (arith, lookup-key_index k 0 keys [])) in
    (a, subst (λ x. get_elem? keys x ≡ some a) {x = d} (omega arith) there, found)

pub indexed_none :
    (k : List ℕ) (keys : List KeyValueEntry) → lookup k (index_of keys) ≡ none → find k keys ≡ none
unfolding lookup
indexed_none k keys e = position-none k 0 keys (ground (arith, lookup-key_index k 0 keys []))
