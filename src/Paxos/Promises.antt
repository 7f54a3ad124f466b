-- ===== src/Paxos/Promises.antt =====
-- What an acceptor promises: its ballot over any requests, and what it answers.
use slog.Base.{
  ℕ, ◌≤◌, ◌≡◌, refl, List, [], ◌∷◌, ◌++◌, arith, ltb, leb, if◌then◌else◌, Bool-cases, inl, inr,
}
use slog.Paxos.{Message, propose, accept, commit, accepted, committed, Effect, sends, reports}
use slog.Paxos.Acceptor.{Acceptor, handle_request}

-- A request, with the machine that it comes from.
abbrev pub Request : Type 0
Request = Message × ℕ

unfoldable pub run : List Request → Acceptor → Acceptor × List Effect
run [] a = (a, [])
run ((m, from) ∷ requests) a =
    let (a', now) = handle_request m from a in
    let (last, later) = run requests a' in (last, now ++ later)

-- The highest of a ballot and of those of the accept requests.
abbrev pub highest : ℕ → List Request → ℕ
highest b [] = b
highest b ((accept ballot slot value, from) ∷ rs) = highest (if leb b ballot then ballot else b) rs
highest b ((propose value, from) ∷ rs) = highest b rs
highest b ((commit slot value leader, from) ∷ rs) = highest b rs
highest b ((accepted ballot slot, from) ∷ rs) = highest b rs
highest b ((committed slot, from) ∷ rs) = highest b rs

-- The ballots of the accept responses, in the order in which they are sent.
abbrev pub promised : List Effect → List ℕ
promised [] = []
promised (sends (accepted ballot slot) to ∷ es) = ballot ∷ promised es
promised (sends (propose value) to ∷ es) = promised es
promised (sends (accept ballot slot value) to ∷ es) = promised es
promised (sends (commit slot value leader) to ∷ es) = promised es
promised (sends (committed slot) to ∷ es) = promised es
promised (reports slot value leader ∷ es) = promised es

abbrev pub Rising : ℕ → List ℕ → Type 0
Rising low [] = Unit
Rising low (b ∷ bs) = (low ≤ b) × Rising b bs

run-highest : (rs : List Request) (a : Acceptor) → (run rs a).0.ballot ≡ highest a.ballot rs
unfolding run handle_request
run-highest [] a = refl
run-highest ((accept b s v, from) ∷ rs) a = elim (Bool-cases (ltb b a.ballot)) [
  | inl low ↦ ground (arith, run-highest rs a)
  | inr fair ↦ ground (arith, run-highest rs (record { ballot = b }))
]
run-highest ((propose v, from) ∷ rs) a = run-highest rs a
run-highest ((commit s v l, from) ∷ rs) a = run-highest rs a
run-highest ((accepted b s, from) ∷ rs) a = run-highest rs a
run-highest ((committed s, from) ∷ rs) a = run-highest rs a

run-Rising : (rs : List Request) (a : Acceptor) → Rising a.ballot (promised (run rs a).1)
unfolding run handle_request
run-Rising [] a = tt
run-Rising ((accept b s v, from) ∷ rs) a = elim (Bool-cases (ltb b a.ballot)) [
  | inl low ↦ rw low (run-Rising rs a)
  | inr fair ↦ rw fair (ground arith, run-Rising rs (record { ballot = b }))
]
run-Rising ((propose v, from) ∷ rs) a = run-Rising rs a
run-Rising ((commit s v l, from) ∷ rs) a = run-Rising rs a
run-Rising ((accepted b s, from) ∷ rs) a = run-Rising rs a
run-Rising ((committed s, from) ∷ rs) a = run-Rising rs a

-- After `before`, with `a` the acceptor at the start, an accept request comes.
abbrev pub KeepsPromise : List Request → ℕ → ℕ → ℕ → ℕ → Acceptor → Type 0
KeepsPromise before ballot slot value from a =
    let (now, answers) = run before a in
    (now.ballot ≡ highest a.ballot before)
    × Rising a.ballot (promised answers)
    × ((handle_request (accept ballot slot value) from now).1 ≡ (
        if leb (highest a.ballot before) ballot
        then sends (accepted ballot slot) (from ∷ []) ∷ []
        else []))

-- Over any requests to an acceptor, its ballot is the highest of the one that it starts with and
-- those of the accept requests that have come; the ballots of the accept responses that it sends
-- never fall, nor below the one that it starts with; and an accept request that comes next is
-- answered exactly when its ballot is no smaller than all of those, with its ballot and slot.
pub ballot_never_falls :
    (before : List Request) (ballot slot value from : ℕ) (a : Acceptor)
    → KeepsPromise before ballot slot value from a
unfolding handle_request
ballot_never_falls before b s v from a =
    (run-highest before a, run-Rising before a, ground (arith, run-highest before a))
