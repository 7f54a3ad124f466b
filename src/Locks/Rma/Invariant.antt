-- ===== src/Locks/Rma/Invariant.antt =====
-- The lock table of a RMALockManager and its counter of locked keys, call by call.
use slog.Base.{
  ℕ, ◌+◌, ◌%◌, ◌^◌, ◌≡◌, refl, sym, ap, subst, subst₂, ◌∙◌, Bool, true, false, not, ◌&&◌, some,
  List, [], ◌∷◌, arith, Map, get_or, lookup, insert, lookup-insert, bytes_Eq, list_eq, nat_Eq,
  if◌then◌else◌, Option-cases, Bool-cases, inl, inr, >>=-eq-some, Increasing, sort_unique,
  sort_unique-Increasing,
}
use slog.Txn.{Transaction, KeyValueEntry, to_uint32}
use slog.Locks.Request.{KeyType, Request, Requests, IsSound, request, leave, no_requests}
use slog.Locks.Request.Laws.{request-IsSound, leave-IsSound}
use slog.Locks.KeyReplica.{make_key_replica}
use slog.Locks.LockState.{LockState, new_lock, acquire_read_lock, acquire_write_lock, release}
use slog.Locks.LockState.Refines.{state_of, acquire-refines, release-refines}
use slog.Locks.Rma.{
  RmaLockManager, Acquiring, is_unlocked, increment, decrement, acquire_lock, acquire_key,
  acquire_one, acquire_keys, acquire_locks, is_relevant, release_key, release_keys, release_locks,
  new_info,
}
use slog.Locks.Rma.Table.{locked, locked-insert, locked-insert_or}

-- The lock stands for requests that keep the promise of a lock.
abbrev pub IsSoundLock : LockState → Type 0
IsSoundLock s = (a : Requests) × (s ≡ state_of a) × IsSound a

new_lock-IsSoundLock : IsSoundLock new_lock
new_lock-IsSoundLock = (no_requests, refl, record { shared = inl refl; used = refl })

acquire_lock-IsSoundLock :
    (type : KeyType) (t : ℕ) (s : LockState) → IsSoundLock s → IsSoundLock (acquire_lock type t s).0
acquire_lock-IsSoundLock KeyType.read t s (a, e, v) = (
  request (t, KeyType.read) a,
  ap (λ x. (acquire_read_lock t x).0) e ∙ ap (λ p. p.0) (acquire-refines (t, KeyType.read) a v),
  request-IsSound (t, KeyType.read) a v,
)
acquire_lock-IsSoundLock KeyType.write t s (a, e, v) = (
  request (t, KeyType.write) a,
  ap (λ x. (acquire_write_lock t x).0) e ∙ ap (λ p. p.0) (acquire-refines (t, KeyType.write) a v),
  request-IsSound (t, KeyType.write) a v,
)

release-IsSoundLock : (t : ℕ) (s : LockState) → IsSoundLock s → IsSoundLock (release t s).0
release-IsSoundLock t s (a, e, v) = (
  leave t a,
  ap (λ x. (release t x).0) e ∙ ap (λ p. p.0) (release-refines t a v),
  leave-IsSound t a v,
)

acquire_lock-mode :
    (type : KeyType) (t : ℕ) (s : LockState) → is_unlocked (acquire_lock type t s).0.mode ≡ false
unfolding acquire_read_lock acquire_write_lock
acquire_lock-mode KeyType.read t s = ground arith
acquire_lock-mode KeyType.write t s = ground arith

-- Nobody gets a lock that nobody held.
release-still_unlocked :
    (t : ℕ) (gs ws : List Request)
    → is_unlocked (state_of (record { granted = gs; waiting = ws })).mode ≡ true
    → is_unlocked (release t (state_of (record { granted = gs; waiting = ws }))).0.mode ≡ true
unfolding release
release-still_unlocked t [] ws h = refl
release-still_unlocked t ((u, KeyType.read) ∷ gs) ws h = absurd (ground arith)
release-still_unlocked t ((u, KeyType.write) ∷ gs) ws h = absurd (ground arith)

release-unlocked :
    (t : ℕ) (s : LockState)
    → IsSoundLock s
    → is_unlocked s.mode ≡ true
    → is_unlocked (release t s).0.mode ≡ true
release-unlocked t s (a, e, v) h =
    subst (λ x. is_unlocked (release t x).0.mode ≡ true) (sym e)
      (release-still_unlocked t a.granted a.waiting (subst (λ x. is_unlocked x.mode ≡ true) e h))

-- The counter moves with the number of locked keys.
counter_step :
    (n old new : ℕ) (before after : Bool)
    → n ≡ old % 2 ^ 32
    → new + (if before then 0 else 1) ≡ old + (if after then 0 else 1)
    → after ≡ false
    → (if before && not after then increment n else n) ≡ new % 2 ^ 32
counter_step n old new before after e d h = ground arith

counter_back :
    (n old new : ℕ) (before after : Bool)
    → n ≡ old % 2 ^ 32
    → new + (if before then 0 else 1) ≡ old + (if after then 0 else 1)
    → (before ≡ true → after ≡ true)
    → (if after && not before then decrement n else n) ≡ new % 2 ^ 32
counter_back n old new before after e d h = ground arith

-- The table with its counter.
pub record Kept (table : Map (List ℕ) LockState) (num_locked_keys : ℕ) : Type 0 where
  pub sound : (k : List ℕ) (s : LockState) → lookup k table ≡ some s → IsSoundLock s
  pub counter : num_locked_keys ≡ locked table % 2 ^ 32

get_or-IsSoundLock :
    (k : List ℕ) (m : Map (List ℕ) LockState) (n : ℕ) → Kept m n → IsSoundLock (get_or k new_lock m)
get_or-IsSoundLock k m n v = elim (Option-cases (lookup k m)) [
  | inl e ↦ subst IsSoundLock {x = new_lock} (ground arith) new_lock-IsSoundLock
  | inr (s, e) ↦ subst IsSoundLock {x = s} (ground arith) (v.sound k s e)
]

insert_sound :
    (k : List ℕ) (s : LockState) (m : Map (List ℕ) LockState) (n : ℕ)
    → Kept m n
    → IsSoundLock s
    → (j : List ℕ) (x : LockState) → lookup j (insert k s m) ≡ some x
    → IsSoundLock x
insert_sound k s m n v h j x e = elim (Bool-cases (list_eq k j)) [
  | inl same ↦ subst IsSoundLock (ground (arith, lookup-insert k j s m)) h
  | inr other ↦ v.sound j x (ground (arith, lookup-insert k j s m))
]

acquire_key-Kept :
    (t : ℕ) (k : List ℕ) (type : KeyType) (a : Acquiring)
    → Kept a.lock_table a.num_locked_keys
    → Kept (acquire_key t k type a).lock_table (acquire_key t k type a).num_locked_keys
unfolding acquire_key
acquire_key-Kept t k type a v =
    let before = get_or k new_lock a.lock_table in
    let after = (acquire_lock type t before).0 in
    record {
      sound = insert_sound k after a.lock_table a.num_locked_keys v (
          acquire_lock-IsSoundLock type t before
            (get_or-IsSoundLock k a.lock_table a.num_locked_keys v));
      counter =
          counter_step a.num_locked_keys (locked a.lock_table)
            (locked (insert k after a.lock_table)) (is_unlocked before.mode)
            (is_unlocked after.mode) v.counter (locked-insert_or k after a.lock_table)
            (acquire_lock-mode type t before);
    }

acquire_one-Kept :
    (txn : Transaction) (kv : KeyValueEntry) (a : Acquiring)
    → Kept a.lock_table a.num_locked_keys
    → Kept (acquire_one txn kv a).lock_table (acquire_one txn kv a).num_locked_keys
acquire_one-Kept txn kv a v = choose (is_relevant txn kv)
  where
    asked : Acquiring
    asked =
        acquire_key txn.internal.id (make_key_replica kv.key (to_uint32 txn.internal.home))
          kv.value_entry.type a

    choose :
        (b : Bool)
        → Kept (if b then asked else a).lock_table (if b then asked else a).num_locked_keys
    choose false = v
    choose true =
        acquire_key-Kept txn.internal.id (make_key_replica kv.key (to_uint32 txn.internal.home))
          kv.value_entry.type a v

acquire_keys-Kept :
    (txn : Transaction) (kvs : List KeyValueEntry) (a : Acquiring)
    → Kept a.lock_table a.num_locked_keys
    → Kept (acquire_keys txn kvs a).lock_table (acquire_keys txn kvs a).num_locked_keys
unfolding acquire_keys
acquire_keys-Kept txn [] a v = v
acquire_keys-Kept txn (kv ∷ kvs) a v =
    acquire_keys-Kept txn kvs (acquire_one txn kv a) (acquire_one-Kept txn kv a v)

pub acquire_locks-Kept :
    (txn : Transaction) (lm : RmaLockManager)
    → Kept lm.lock_table lm.num_locked_keys
    → Kept (acquire_locks txn lm).0.lock_table (acquire_locks txn lm).0.num_locked_keys
unfolding acquire_locks
acquire_locks-Kept txn lm v =
    acquire_keys-Kept txn txn.keys
      (record {
        info = get_or txn.internal.id (new_info txn) lm.txn_info;
        lock_table = lm.lock_table;
        num_locked_keys = lm.num_locked_keys;
      })
      v

release_key-Kept :
    (t : ℕ) (k : List ℕ) (lm lm' : RmaLockManager) (result result' : List ℕ)
    → Kept lm.lock_table lm.num_locked_keys
    → release_key t k (lm, result) ≡ some (lm', result')
    → Kept lm'.lock_table lm'.num_locked_keys
unfolding release_key
release_key-Kept t k lm lm' result result' v e = elim (Option-cases (lookup k lm.lock_table)) [
  | inl gone ↦
      subst₂ Kept {x = lm.lock_table} {u = lm.num_locked_keys} (ground arith) (ground arith) v
  | inr (before, found) ↦
      (let after = (release t before).0 in
        let lock = v.sound k before found in
        let table : insert k after lm.lock_table ≡ lm'.lock_table = ground arith in
        let counted : (if is_unlocked after.mode && not (is_unlocked before.mode)
              then decrement lm.num_locked_keys
              else lm.num_locked_keys)
            ≡ lm'.num_locked_keys =
          ground arith in
        subst₂ Kept table counted (record {
          sound =
              insert_sound k after lm.lock_table lm.num_locked_keys v
                (release-IsSoundLock t before lock);
          counter =
              counter_back lm.num_locked_keys (locked lm.lock_table)
                (locked (insert k after lm.lock_table)) (is_unlocked before.mode)
                (is_unlocked after.mode) v.counter
                (locked-insert k after before lm.lock_table found) (release-unlocked t before lock);
        }))
]

release_keys-Kept :
    (t : ℕ) (ks : List (List ℕ)) (lm lm' : RmaLockManager) (result result' : List ℕ)
    → Kept lm.lock_table lm.num_locked_keys
    → release_keys t ks (lm, result) ≡ some (lm', result')
    → Kept lm'.lock_table lm'.num_locked_keys
unfolding release_keys
release_keys-Kept t [] lm lm' result result' v e =
    subst₂ Kept {x = lm.lock_table} {u = lm.num_locked_keys} (ground arith) (ground arith) v
release_keys-Kept t (k ∷ ks) lm lm' result result' v e =
    let ((lm₁, r₁), first, rest) =
      >>=-eq-some (release_key t k (lm, result)) (release_keys t ks) e in
    release_keys-Kept t ks lm₁ lm' r₁ result' (release_key-Kept t k lm lm₁ result r₁ v first) rest

pub release_locks-Kept :
    (t : ℕ) (lm lm' : RmaLockManager) (result : List ℕ)
    → Kept lm.lock_table lm.num_locked_keys
    → release_locks t lm ≡ some (lm', result)
    → Kept lm'.lock_table lm'.num_locked_keys × Increasing result
unfolding release_locks
release_locks-Kept t lm lm' result v e = elim (Option-cases (lookup t lm.txn_info)) [
  | inl gone ↦ (
    subst₂ Kept {x = lm.lock_table} {u = lm.num_locked_keys} (ground arith) (ground arith) v,
    subst Increasing {x = []} (ground arith) tt,
  )
  | inr (info, found) ↦ elim (Option-cases (release_keys t info.keys (lm, []))) [
    | inl stopped ↦ absurd (ground arith)
    | inr ((lm₁, r₁), done) ↦ (
      subst₂ Kept {x = lm₁.lock_table} {u = lm₁.num_locked_keys} (ground arith) (ground arith)
          (release_keys-Kept t info.keys lm lm₁ [] r₁ v done),
      subst Increasing {x = sort_unique r₁} (ground arith) (sort_unique-Increasing r₁),
    )
  ]
]
