-- ===== src/Locks/Request.antt =====
-- What a lock promises, apart from how the lock managers keep it: requests are served first come,
-- first served; several readers share a lock, and a writer has it alone.
pub mod Laws
use slog.Base.{
  ℕ, ◌≡◌, Bool, true, false, ◌&&◌, List, [], ◌∷◌, ◌++◌, map, All, is_empty, elem, if◌then◌else◌,
  nat_Eq, ◌==◌, ◌⊎◌,
}

-- proto/transaction.proto
pub data KeyType : Type 0 where
  read write : KeyType

-- A transaction, and how it wants the key.
abbrev pub Request : Type 0
Request = ℕ × KeyType

pub record Requests : Type 0 where
  pub granted : List Request
  pub waiting : List Request

abbrev pub no_requests : Requests
no_requests = record { granted = []; waiting = [] }

abbrev pub is_read : Request → Bool
is_read (t, read) = true
is_read (t, write) = false

abbrev pub all_read : List Request → Bool
all_read [] = true
all_read (r ∷ rs) = is_read r && all_read rs

-- A new request can be granted at once beside those that are.
abbrev pub is_compatible : Request → List Request → Bool
is_compatible r [] = true
is_compatible r (g ∷ gs) = is_read r && all_read (g ∷ gs)

abbrev pub request : Request → Requests → Requests
request r a =
    if is_empty a.waiting && is_compatible r a.granted
    then record a { granted = a.granted ++ r ∷ [] }
    else record a { waiting = a.waiting ++ r ∷ [] }

-- The readers at the head of a queue, and what stands behind them.
abbrev pub readers : List Request → List Request
readers [] = []
readers ((t, write) ∷ rs) = []
readers ((t, read) ∷ rs) = (t, read) ∷ readers rs

abbrev pub after_readers : List Request → List Request
after_readers [] = []
after_readers ((t, write) ∷ rs) = (t, write) ∷ rs
after_readers ((t, read) ∷ rs) = after_readers rs

-- A free lock goes to the readers at the head of the queue, or to the writer there.
abbrev pub promote : List Request → Requests
promote [] = no_requests
promote ((t, write) ∷ rs) = record { granted = (t, write) ∷ []; waiting = rs }
promote ((t, read) ∷ rs) = record { granted = (t, read) ∷ readers rs; waiting = after_readers rs }

abbrev pub txns : List Request → List ℕ
txns [] = []
txns (r ∷ rs) = r.0 ∷ txns rs

abbrev pub drop_first : ℕ → List Request → List Request
drop_first t [] = []
drop_first t (r ∷ rs) = if r.0 == t then rs else r ∷ drop_first t rs

abbrev pub drop_all : ℕ → List Request → List Request
drop_all t [] = []
drop_all t (r ∷ rs) = if r.0 == t then drop_all t rs else r ∷ drop_all t rs

-- A holder that leaves hands the lock on when it is the last; one that waits leaves the queue.
abbrev pub left_with : List Request → List Request → Requests
left_with [] waiting = promote waiting
left_with (g ∷ gs) waiting = record { granted = g ∷ gs; waiting = waiting }

abbrev pub leave : ℕ → Requests → Requests
leave t a =
    if elem t (txns a.granted)
    then left_with (drop_first t a.granted) a.waiting
    else record a { waiting = drop_all t a.waiting }

-- The transactions that get the lock when one leaves.
abbrev pub served : ℕ → Requests → List ℕ
served t a =
    if elem t (txns a.granted) && is_empty (drop_first t a.granted)
    then txns (promote a.waiting).granted
    else []

-- Readers share, a writer is alone.
abbrev pub Shared : List Request → Type 0
Shared gs = (all_read gs ≡ true) ⊎ ((t : ℕ) × (gs ≡ (t, write) ∷ []))

-- Nobody waits for a lock that nobody holds.
abbrev pub Used : List Request → List Request → Type 0
Used [] waiting = waiting ≡ []
Used (g ∷ gs) waiting = Unit

pub record IsSound (a : Requests) : Type 0 where
  pub shared : Shared a.granted
  pub used : Used a.granted a.waiting
