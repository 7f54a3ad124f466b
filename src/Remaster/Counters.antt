-- ===== src/Remaster/Counters.antt =====
-- What the results of CheckCounters say of the keys of a transaction.
use slog.Base.{
  ℕ, ◌≤◌, ◌<◌, ◌≡◌, ◌⊎◌, inl, inr, refl, Bool, true, false, Option, none, some, List, [], ◌∷◌, ltb,
  nat_eq, if◌then◌else◌, arith, All, Bool-cases,
}
use slog.Txn.{MasterMetadata, Transaction, KeyValueEntry, metadata}
use slog.Remaster.{
  VerifyMasterResult, valid, waiting, abort, Storage, stored, is_checked, check_keys,
  check_counters,
}

module _ (storage : Storage) (filter_by_home : Bool) (txn : Transaction) where
  -- The counter in the transaction, against the one in the storage.
  abbrev pub Current : KeyValueEntry → Type 0
  Current kv =
      is_checked filter_by_home txn kv ≡ true
      → ((metadata kv.value_entry).counter ≡ (stored storage kv.key).counter)
        × ((metadata kv.value_entry).master ≡ (stored storage kv.key).master)

  abbrev pub NotBehind : KeyValueEntry → Type 0
  NotBehind kv =
      is_checked filter_by_home txn kv ≡ true
      → (stored storage kv.key).counter ≤ (metadata kv.value_entry).counter

  -- One of the keys is checked, and its counter and that in the storage are so related.
  abbrev pub Some : (ℕ → ℕ → Type 0) → List KeyValueEntry → Type 0
  Some Rel [] = ⊥
  Some Rel (kv ∷ kvs) =
      ((is_checked filter_by_home txn kv ≡ true)
        × Rel (metadata kv.value_entry).counter (stored storage kv.key).counter)
      ⊎ Some Rel kvs

  -- What each result stands for, given whether a key before these was ahead.
  abbrev pub Means : Bool → List KeyValueEntry → Option VerifyMasterResult → Type 0
  Means ahead kvs none = Unit
  Means ahead kvs (some valid) = (ahead ≡ false) × All Current kvs
  Means ahead kvs (some waiting) = All NotBehind kvs × ((ahead ≡ true) ⊎ Some (λ a b. b < a) kvs)
  Means ahead kvs (some abort) = Some ◌<◌ kvs

  skip-Means :
      (ahead : Bool) (kv : KeyValueEntry) (kvs : List KeyValueEntry) (r : Option VerifyMasterResult)
      → is_checked filter_by_home txn kv ≡ false
      → Means ahead kvs r
      → Means ahead (kv ∷ kvs) r
  skip-Means ahead kv kvs none h m = tt
  skip-Means ahead kv kvs (some valid) h m = (m.0, ((λ c. absurd (ground arith)), m.1))
  skip-Means ahead kv kvs (some waiting) h (n, inl w) = (((λ c. absurd (ground arith)), n), inl w)
  skip-Means ahead kv kvs (some waiting) h (n, inr w) =
      (((λ c. absurd (ground arith)), n), inr (inr w))
  skip-Means ahead kv kvs (some abort) h m = inr m

  ahead-Means :
      (ahead : Bool) (kv : KeyValueEntry) (kvs : List KeyValueEntry) (r : Option VerifyMasterResult)
      → is_checked filter_by_home txn kv ≡ true
      → (stored storage kv.key).counter < (metadata kv.value_entry).counter
      → Means true kvs r
      → Means ahead (kv ∷ kvs) r
  ahead-Means ahead kv kvs none c lt m = tt
  ahead-Means ahead kv kvs (some valid) c lt m = absurd (ground (arith, m.0))
  ahead-Means ahead kv kvs (some waiting) c lt m = (((λ _. omega arith), m.0), inr (inl (c, lt)))
  ahead-Means ahead kv kvs (some abort) c lt m = inr m

  equal-Means :
      (ahead : Bool) (kv : KeyValueEntry) (kvs : List KeyValueEntry) (r : Option VerifyMasterResult)
      → (metadata kv.value_entry).counter ≡ (stored storage kv.key).counter
      → (metadata kv.value_entry).master ≡ (stored storage kv.key).master
      → Means ahead kvs r
      → Means ahead (kv ∷ kvs) r
  equal-Means ahead kv kvs none e f m = tt
  equal-Means ahead kv kvs (some valid) e f m = (m.0, ((λ c. (e, f)), m.1))
  equal-Means ahead kv kvs (some waiting) e f (n, inl w) = (((λ c. omega arith), n), inl w)
  equal-Means ahead kv kvs (some waiting) e f (n, inr w) = (((λ c. omega arith), n), inr (inr w))
  equal-Means ahead kv kvs (some abort) e f m = inr m

  -- One key that is checked, before keys with the results `later` and `same`.
  compared-Means :
      (ahead : Bool) (kv : KeyValueEntry) (kvs : List KeyValueEntry)
      (later same : Option VerifyMasterResult)
      → is_checked filter_by_home txn kv ≡ true
      → Means true kvs later
      → Means ahead kvs same
      → Means ahead (kv ∷ kvs) (
          if ltb (metadata kv.value_entry).counter (stored storage kv.key).counter
          then some abort
          else if ltb (stored storage kv.key).counter (metadata kv.value_entry).counter
          then later
          else if nat_eq (metadata kv.value_entry).master (stored storage kv.key).master
          then same
          else none)
  compared-Means ahead kv kvs later same checked l s =
      elim (Bool-cases (ltb in_txn.counter found.counter)) [
        | inl behind ↦ rw behind (inl (checked, ground arith))
        | inr kept ↦ rw kept (elim (Bool-cases (ltb found.counter in_txn.counter)) [
          | inl more ↦ rw more (ahead-Means ahead kv kvs later checked (ground arith) l)
          | inr level ↦ rw level (elim (Bool-cases (nat_eq in_txn.master found.master)) [
            | inr other ↦ rw other tt
            | inl match ↦ rw match (equal-Means ahead kv kvs same (ground arith) (ground arith) s)
          ])
        ])
      ]
    where
      in_txn : MasterMetadata
      in_txn = metadata kv.value_entry

      found : MasterMetadata
      found = stored storage kv.key

  check_keys-Means :
      (ahead : Bool) (kvs : List KeyValueEntry)
      → Means ahead kvs (check_keys storage filter_by_home txn kvs ahead)
  unfolding check_keys
  check_keys-Means false [] = (refl, tt)
  check_keys-Means true [] = (tt, inl refl)
  check_keys-Means ahead (kv ∷ kvs) =
      let later = check_keys-Means true kvs in
      let same = check_keys-Means ahead kvs in
      elim (Bool-cases (is_checked filter_by_home txn kv)) [
        | inr skipped ↦
            rw skipped (
              skip-Means ahead kv kvs (check_keys storage filter_by_home txn kvs ahead) skipped
                same)
        | inl checked ↦ rw checked (
            compared-Means ahead kv kvs (check_keys storage filter_by_home txn kvs true)
              (check_keys storage filter_by_home txn kvs ahead) checked later same)
      ]

  -- Of the keys that are checked: VALID means that counter and master of each are those of the
  -- storage; WAITING that no counter is behind the storage and one is ahead; ABORT that one is
  -- behind.
  pub check_counters-Means : Means false txn.keys (check_counters storage filter_by_home txn)
  unfolding check_counters
  check_counters-Means = check_keys-Means false txn.keys
