-- ===== src/ProtoUtils/Home.antt =====
-- common/proto_utils.cpp, MakeTransaction: the type, the home and the regions of a new transaction.
use slog.Base.{
  ℕ, ◌≡◌, ◌⊎◌, refl, sym, subst, Bool, true, false, ◌&&◌, Option, some, List, [], ◌∷◌, ◌++◌,
  sort_unique, if◌then◌else◌, negsuc, All, elem, nat_Eq, Increasing, sort_unique-Increasing,
  elem-sort_unique, arith, Bool-cases, inl, inr,
}
use slog.Txn.{KeyValueEntry, TransactionType, Transaction, is_remaster, to_int}
use slog.ProtoUtils.{
  KeyMetadata, master, all_metadata, all_mastered_at, set_complete_type, set_transaction_type,
  set_involved_replicas, set_type, masters, draft, make_transaction, entries, new_masters,
  populate_involved_replicas,
}

abbrev pub masters_of : List KeyValueEntry → List ℕ
masters_of [] = []
masters_of (kv ∷ kvs) = master kv ∷ masters_of kvs

-- The regions that a transaction is for: those of its keys, and the new one of a remaster.
abbrev pub regions : Bool → Transaction → List ℕ
regions counterless txn =
    masters_of txn.keys ++ (if counterless then new_masters txn.program else [])

abbrev pub At : ℕ → KeyValueEntry → Type 0
At home kv = master kv ≡ home

-- What the type of a transaction says of it.
abbrev pub Typed : Bool → Transaction → TransactionType → Type 0
Typed counterless txn TransactionType.unknown = (txn.keys ≡ []) ⊎ (all_metadata txn.keys ≡ false)
Typed counterless txn TransactionType.single_home =
    (all_metadata txn.keys ≡ true)
    × (counterless && is_remaster txn ≡ false)
    × ((home : ℕ) × All (At home) txn.keys
        × (txn.internal.home ≡ to_int home)
        × (txn.internal.involved_replicas ≡ home ∷ []))
Typed counterless txn TransactionType.multi_home_or_lock_only =
    (all_metadata txn.keys ≡ true)
    × ((home : ℕ) → All (At home) txn.keys → counterless && is_remaster txn ≡ true)
    × (txn.internal.home ≡ negsuc 0)
    × Increasing txn.internal.involved_replicas
    × ((r : ℕ) → elem r txn.internal.involved_replicas ≡ elem r (regions counterless txn))

all_mastered_at_sound :
    (h : ℕ) (kvs : List KeyValueEntry) → all_mastered_at h kvs ≡ true → All (At h) kvs
all_mastered_at_sound h [] e = tt
all_mastered_at_sound h (kv ∷ kvs) e = (ground arith, all_mastered_at_sound h kvs (ground arith))

all_mastered_at_complete :
    (h g : ℕ) (kvs : List KeyValueEntry) → All (At g) kvs → h ≡ g → all_mastered_at h kvs ≡ true
all_mastered_at_complete h g [] a e = refl
all_mastered_at_complete h g (kv ∷ kvs) a e =
    ground (arith, a.0, all_mastered_at_complete h g kvs a.1 e)

masters_lem :
    (kvs : List KeyValueEntry) → all_metadata kvs ≡ true → masters kvs ≡ some (masters_of kvs)
unfolding masters
masters_lem [] h = refl
masters_lem (kv ∷ kvs) h = ground (arith, masters_lem kvs)

-- A transaction with its type set, and no regions yet.
populated :
    (c : Bool) (txn : Transaction)
    → txn.internal.involved_replicas ≡ []
    → (txn' : Transaction) × (populate_involved_replicas c (set_transaction_type c txn) ≡ some txn')
      × Typed c txn' txn'.internal.type
      × (txn'.keys ≡ txn.keys)
unfolding set_transaction_type set_complete_type populate_involved_replicas
populated c txn fresh = go txn.keys refl
  where
    go :
        (kvs : List KeyValueEntry)
        → txn.keys ≡ kvs
        → (txn' : Transaction) × (populate_involved_replicas c (set_transaction_type c txn)
            ≡ some txn')
          × Typed c txn' txn'.internal.type
          × (txn'.keys ≡ txn.keys)
    go [] e = (
      record txn { internal = record txn.internal { type = TransactionType.unknown } },
      ground arith,
      inl e,
      refl,
    )
    go (kv ∷ kvs) e = elim (Bool-cases (all_metadata (kv ∷ kvs))) [
      | inr partial ↦ (
        record txn { internal = record txn.internal { type = TransactionType.unknown } },
        ground arith,
        inr (ground arith),
        refl,
      )
      | inl full ↦
          (let known : all_metadata txn.keys ≡ true = ground arith in
            elim (Bool-cases (c && is_remaster txn)) [
              | inr stays ↦ elim (Bool-cases (all_mastered_at (master kv) (kv ∷ kvs))) [
                | inl one ↦ (
                  set_involved_replicas (master kv ∷ [])
                      (set_type TransactionType.single_home (to_int (master kv)) txn),
                  ground arith,
                  (
                    known,
                    stays,
                    (
                      master kv,
                      subst (All (At (master kv))) (sym e)
                          (all_mastered_at_sound (master kv) (kv ∷ kvs) one),
                      refl,
                      refl,
                    ),
                  ),
                  refl,
                )
                | inr many ↦ (
                  several,
                  ground (arith, masters_lem txn.keys known),
                  (
                    known,
                    (λ h a.
                        let here = subst (All (At h)) e a in
                        absurd (
                          ground (
                            arith,
                            all_mastered_at_complete (master kv) h (kv ∷ kvs) here here.0,
                          ))),
                    refl,
                    sort_unique-Increasing (regions c txn),
                    λ r. elem-sort_unique r (regions c txn),
                  ),
                  refl,
                )
              ]
              | inl moves ↦ (
                several,
                ground (arith, masters_lem txn.keys known),
                (
                  known,
                  (λ h a. moves),
                  refl,
                  sort_unique-Increasing (regions c txn),
                  λ r. elem-sort_unique r (regions c txn),
                ),
                refl,
              )
            ])
    ]
      where
        several : Transaction
        several =
            set_involved_replicas (sort_unique (regions c txn))
              (set_type TransactionType.multi_home_or_lock_only (negsuc 0) txn)

-- A new transaction is always made. It is UNKNOWN only if it has no key or a key without metadata;
-- else it is SINGLE_HOME exactly when all its keys are mastered in one region and it is no remaster
-- of the counterless protocol, and then this is its home and its only region; and else it is
-- MULTI_HOME, with no home, and its regions are the masters of its keys and the new one of such a
-- remaster, each once and in order.
pub make_transaction-Typed :
    (counterless : Bool) (key_metadatas : List KeyMetadata) (code : List (List (List ℕ)))
    (remaster : Option ℕ) (coordinating_server : ℕ)
    → (txn : Transaction) × (make_transaction counterless key_metadatas code remaster
          coordinating_server
        ≡ some txn)
      × Typed counterless txn txn.internal.type
      × (txn.keys ≡ entries key_metadatas)
unfolding make_transaction
make_transaction-Typed counterless key_metadatas code remaster coordinating_server =
    populated counterless (draft key_metadatas code remaster coordinating_server) refl
