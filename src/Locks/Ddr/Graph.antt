-- ===== src/Locks/Ddr/Graph.antt =====
-- The graph of a DDRLockManager: how many edges lead to a transaction.
use slog.Base.{
  ℕ, ◌+◌, ◌≤◌, ◌≡◌, refl, none, some, [], ◌∷◌, arith, Map, lookup, insert, erase_key, Unique,
  erase_key-none, nat_Eq, count,
}
use slog.Locks.Ddr.{TxnInfo}

-- How often `b` stands in the `waited_by` lists.
pub edges : ℕ → Map ℕ TxnInfo → ℕ
edges b [] = 0
edges b ((k, info) ∷ m) = count b info.waited_by + edges b m

pub edges-empty : (b : ℕ) → edges b [] ≡ 0
unfolding edges
edges-empty b = refl

-- A new transaction with no edges, and one written over another.
pub edges-insert_new :
    (b k : ℕ) (v : TxnInfo) (m : Map ℕ TxnInfo)
    → lookup k m ≡ none
    → edges b (insert k v m) ≡ edges b m + count b v.waited_by
unfolding edges lookup insert
edges-insert_new b k v [] h = omega arith
edges-insert_new b k v ((j, w) ∷ m) h = ground (arith, edges-insert_new b k v m)

pub edges-insert :
    (b k : ℕ) (v old : TxnInfo) (m : Map ℕ TxnInfo)
    → lookup k m ≡ some old
    → edges b (insert k v m) + count b old.waited_by ≡ edges b m + count b v.waited_by
unfolding edges lookup insert
edges-insert b k v old [] h = absurd (ground arith)
edges-insert b k v old ((j, w) ∷ m) h = ground (arith, edges-insert b k v old m)

pub edges-erase_key :
    (b k : ℕ) (old : TxnInfo) (m : Map ℕ TxnInfo)
    → Unique m
    → lookup k m ≡ some old
    → edges b (erase_key k m) + count b old.waited_by ≡ edges b m
unfolding edges lookup erase_key
edges-erase_key b k old [] u h = absurd (ground arith)
edges-erase_key b k old ((j, w) ∷ m) u h =
    ground (arith, edges-erase_key b k old m u.1, erase_key-none k m)

pub count-le-edges :
    (b k : ℕ) (info : TxnInfo) (m : Map ℕ TxnInfo)
    → lookup k m ≡ some info
    → count b info.waited_by ≤ edges b m
unfolding edges lookup
count-le-edges b k info [] h = absurd (ground arith)
count-le-edges b k info ((j, w) ∷ m) h = ground (arith, count-le-edges b k info m)
