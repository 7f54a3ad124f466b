-- ===== src/Locks/LockState/Refines.antt =====
-- LockState against the specification of a lock: each operation beside that of Requests, by the lock
-- state that stands for the requests.
use mathlib.Core.List.{append-nil, append_assoc}
use slog.Base.{
  ℕ, ◌≡◌, refl, ap, sym, ◌∙◌, Bool, true, false, ◌&&◌, List, [], ◌∷◌, ◌++◌, is_empty, elem, erase,
  arith, if◌then◌else◌, nat_Eq, inl, inr, Bool-cases,
}
use slog.Locks.Request.{
  KeyType, Request, Requests, IsSound, Shared, request, leave, served, readers, after_readers,
  promote, txns, is_compatible, all_read, drop_first, drop_all,
}
use slog.Locks.LockState.{
  LockMode, LockState, acquire_read_lock, acquire_write_lock, release, grant_readers, hand_on,
  remove_waiter,
}

abbrev pub lock_mode : KeyType → LockMode
lock_mode KeyType.read = LockMode.read
lock_mode KeyType.write = LockMode.write

abbrev pub mode_of : List Request → LockMode
mode_of [] = LockMode.unlocked
mode_of (r ∷ rs) = lock_mode r.1

abbrev pub queue_of : List Request → List (ℕ × LockMode)
queue_of [] = []
queue_of (r ∷ rs) = (r.0, lock_mode r.1) ∷ queue_of rs

-- The lock state that stands for these requests.
abbrev pub state_of : Requests → LockState
state_of a = record {
  mode = mode_of a.granted;
  holders = txns a.granted;
  waiter_queue = queue_of a.waiting;
}

txns-append : (xs ys : List Request) → txns (xs ++ ys) ≡ txns xs ++ txns ys
txns-append [] ys = refl
txns-append (x ∷ xs) ys = ap (◌∷◌ x.0) (txns-append xs ys)

queue_of-append : (xs ys : List Request) → queue_of (xs ++ ys) ≡ queue_of xs ++ queue_of ys
queue_of-append [] ys = refl
queue_of-append (x ∷ xs) ys = ap (◌∷◌ (x.0, lock_mode x.1)) (queue_of-append xs ys)

txns-drop_first : (t : ℕ) (gs : List Request) → txns (drop_first t gs) ≡ erase t (txns gs)
txns-drop_first t [] = refl
txns-drop_first t (g ∷ gs) = ground (arith, txns-drop_first t gs)

queue_of-drop_all :
    (t : ℕ) (ws : List Request) → queue_of (drop_all t ws) ≡ remove_waiter t (queue_of ws)
queue_of-drop_all t [] = refl
queue_of-drop_all t (w ∷ ws) = ground (arith, queue_of-drop_all t ws)

-- The call of an acquire that fits a request.
abbrev pub acquire : Request → LockState → LockState × Bool
acquire (t, KeyType.read) s = acquire_read_lock t s
acquire (t, KeyType.write) s = acquire_write_lock t s

waits_behind :
    (t : ℕ) (k : KeyType) (u : ℕ) (j : KeyType) (gs : List Request) (w : Request)
    (ws : List Request)
    → acquire (t, k) (state_of (record { granted = (u, j) ∷ gs; waiting = w ∷ ws }))
      ≡ (state_of (record { granted = (u, j) ∷ gs; waiting = w ∷ ws ++ (t, k) ∷ [] }), false)
unfolding acquire_read_lock acquire_write_lock
waits_behind t KeyType.read u KeyType.read gs w ws =
    ground (arith, queue_of-append ws ((t, KeyType.read) ∷ []))
waits_behind t KeyType.read u KeyType.write gs w ws =
    ground (arith, queue_of-append ws ((t, KeyType.read) ∷ []))
waits_behind t KeyType.write u KeyType.read gs w ws =
    ground (arith, queue_of-append ws ((t, KeyType.write) ∷ []))
waits_behind t KeyType.write u KeyType.write gs w ws =
    ground (arith, queue_of-append ws ((t, KeyType.write) ∷ []))

acquire-eq-request :
    (t : ℕ) (k : KeyType) (gs ws : List Request)
    → IsSound (record { granted = gs; waiting = ws })
    → acquire (t, k) (state_of (record { granted = gs; waiting = ws })) ≡ (
      state_of (request (t, k) (record { granted = gs; waiting = ws })),
      is_empty ws && is_compatible (t, k) gs,
    )
unfolding acquire_read_lock acquire_write_lock
acquire-eq-request t KeyType.read [] [] v = refl
acquire-eq-request t KeyType.write [] [] v = refl
acquire-eq-request t k [] (w ∷ ws) v = absurd (ground (arith, v.used))
acquire-eq-request t KeyType.read ((u, KeyType.read) ∷ gs) [] v =
    let shared : all_read gs ≡ true = ground (arith, v.shared) in
    ground (arith, shared, txns-append gs ((t, KeyType.read) ∷ []))
acquire-eq-request t KeyType.read ((u, KeyType.write) ∷ gs) [] v = refl
acquire-eq-request t KeyType.write ((u, KeyType.read) ∷ gs) [] v = refl
acquire-eq-request t KeyType.write ((u, KeyType.write) ∷ gs) [] v = refl
acquire-eq-request t k ((u, KeyType.read) ∷ gs) (w ∷ ws) v = waits_behind t k u KeyType.read gs w ws
acquire-eq-request t k ((u, KeyType.write) ∷ gs) (w ∷ ws) v =
    waits_behind t k u KeyType.write gs w ws

-- An acquire grants and queues as a lock should: at once if nobody waits and the request goes with
-- those that are granted, else at the end of the queue; its result says which.
pub acquire-refines :
    (r : Request) (a : Requests)
    → IsSound a
    → acquire r (state_of a)
      ≡ (state_of (request r a), is_empty a.waiting && is_compatible r a.granted)
acquire-refines (t, k) a v = acquire-eq-request t k a.granted a.waiting v

grant_readers-eq :
    (hs : List ℕ) (ws : List Request)
    → grant_readers hs (queue_of ws) ≡ record {
      mode = LockMode.read;
      holders = hs ++ txns (readers ws);
      waiter_queue = queue_of (after_readers ws);
    }
grant_readers-eq hs [] = ground (arith, append-nil hs)
grant_readers-eq hs ((t, KeyType.read) ∷ ws) =
    grant_readers-eq (hs ++ t ∷ []) ws
    ∙ ground (arith, append_assoc hs (t ∷ []) (txns (readers ws)))
grant_readers-eq hs ((t, KeyType.write) ∷ ws) = ground (arith, append-nil hs)

hand_on-eq :
    (s : LockState) (ws : List Request)
    → s.holders ≡ []
    → s.waiter_queue ≡ queue_of ws
    → hand_on s (queue_of ws) ≡ state_of (promote ws)
hand_on-eq s [] h q = ground arith
hand_on-eq s ((t, KeyType.read) ∷ ws) h q = grant_readers-eq (s.holders ++ t ∷ []) ws ∙ ground arith
hand_on-eq s ((t, KeyType.write) ∷ ws) h q = ground arith

-- What is left of a group that shared a lock still has the mode of the group.
mode_of-drop_first :
    (t : ℕ) (gs : List Request)
    → Shared gs
    → is_empty (drop_first t gs) ≡ false
    → mode_of (drop_first t gs) ≡ mode_of gs
mode_of-drop_first t [] v e = refl
mode_of-drop_first t (g ∷ []) v e = ground arith
mode_of-drop_first t (g ∷ h ∷ gs) v e = ground arith

handed_to-eq :
    (ws : List Request)
    → (if is_empty (queue_of ws) then [] else (state_of (promote ws)).holders)
      ≡ txns (promote ws).granted
handed_to-eq [] = refl
handed_to-eq ((t, KeyType.read) ∷ ws) = refl
handed_to-eq ((t, KeyType.write) ∷ ws) = refl

release-eq-leave :
    (t : ℕ) (gs ws : List Request)
    → IsSound (record { granted = gs; waiting = ws })
    → release t (state_of (record { granted = gs; waiting = ws })) ≡ (
      state_of (leave t (record { granted = gs; waiting = ws })),
      served t (record { granted = gs; waiting = ws }),
    )
unfolding release
release-eq-leave t gs ws v = elim (Bool-cases (elem t (txns gs))) [
  | inr waits ↦ ground (arith, queue_of-drop_all t ws)
  | inl holds ↦ elim (Bool-cases (is_empty (drop_first t gs))) [
    | inl alone ↦
        (let none_left : drop_first t gs ≡ [] = ground arith in
          let free : erase t (txns gs) ≡ [] = sym (txns-drop_first t gs) ∙ ap txns none_left in
          ground (
            arith,
            none_left,
            free,
            hand_on-eq
                (record {
                  mode = mode_of gs;
                  holders = erase t (txns gs);
                  waiter_queue = queue_of ws;
                })
                ws free refl,
            handed_to-eq ws,
          ))
    | inr others ↦ ground (arith, txns-drop_first t gs, mode_of-drop_first t gs v.shared)
  ]
]

-- A release takes the transaction out of the requests, and when no holder is left hands the lock to
-- the readers at the head of the queue, or to the writer there; it returns those that get the lock.
pub release-refines :
    (t : ℕ) (a : Requests) → IsSound a → release t (state_of a) ≡ (state_of (leave t a), served t a)
release-refines t a v = release-eq-leave t a.granted a.waiting v
