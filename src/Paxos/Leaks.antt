-- ===== src/Paxos/Leaks.antt =====
-- The instances that a leader keeps, and how a group is set up.
use slog.Base.{
  ℕ, zero, suc, ◌+◌, ◌%◌, ◌≤◌, ◌≡◌, ◌≢◌, ◌∙◌, ap, refl, true, false, some, List, [], ◌∷◌, arith,
  has, lookup, lookup-insert, lookup-erase_key, nat_Eq, nat_eq, length, if◌then◌else◌, Option-cases,
  inl, inr, sym, Bool-cases,
}
use slog.Paxos.{Message, propose, accept, commit, accepted, committed, sends}
use slog.Paxos.Leader.{
  Leader, PaxosInstance, handle_request, handle_response, new_leader, num_acceptors, take, position,
  start_new_instance,
}
use slog.Paxos.Agreement.{handle, run}

abbrev started : ℕ → Leader → PaxosInstance
started v l = record { ballot = l.ballot; value = v; num_accepts = 0; num_commits = 0 }

handle-has :
    (m : Message) (l : Leader) (s : ℕ)
    → s ≢ 0
    → has s l.instances ≡ true
    → has s (handle m l).0.instances ≡ true
unfolding handle handle_request handle_response
handle-has (propose v) l s ne h =
    ground (arith, lookup-insert l.next_empty_slot s (started v l) l.instances)
handle-has (accept b t v) l s ne h = h
handle-has (commit t v a) l s ne h = ground arith
handle-has (accepted b t) l s ne h = elim (Option-cases (lookup t l.instances)) [
  | inl e ↦ ground arith
  | inr (i, e) ↦
      ground (arith, lookup-insert t s (record i { num_accepts = i.num_accepts + 1 }) l.instances)
]
handle-has (committed t) l s ne h = elim (Option-cases (lookup 0 l.instances)) [
  | inl e ↦ ground arith
  | inr (i, e) ↦ ground (
    arith,
    lookup-insert 0 s (record i { num_commits = i.num_commits + 1 }) l.instances,
    lookup-erase_key 0 s l.instances,
  )
]

-- Whatever messages come, commit responses from all members included, a leader never forgets the
-- instance of a slot other than 0.
pub instances_never_removed :
    (ms : List Message) (l : Leader) (s : ℕ)
    → s ≢ 0
    → has s l.instances ≡ true
    → has s (run ms l).0.instances ≡ true
unfolding run
instances_never_removed [] l s ne h = h
instances_never_removed (m ∷ ms) l s ne h =
    instances_never_removed ms (handle m l).0 s ne (handle-has m l s ne h)

length-take_le : (n : ℕ) (ms : List ℕ) → n ≤ length ms → length (take n ms) ≡ n
length-take_le zero ms h = refl
length-take_le (suc n) [] h = absurd (omega arith)
length-take_le (suc n) (m ∷ ms) h = omega (arith, length-take_le n ms)

not_first :
    (first : ℕ) (others : List ℕ) (me : ℕ) (l : Leader)
    → nat_eq first me ≡ false
    → new_leader (first ∷ others) me ≡ some l
    → l.is_elected ≡ nat_eq first me
unfolding new_leader
not_first m ms me l other e = elim (Option-cases (position me ms)) [
  | inl gone ↦ ground (arith, other, gone)
  | inr (p, there) ↦ ground (arith, other, there)
]

-- A new leader object of a group takes the first member for the elected leader, and is elected itself
-- exactly when it is the first member. The acceptors are the first members of the group, an odd
-- number of them, all or all but one. A new object that is elected answers a proposal with accept
-- requests for slot 0 to the acceptors, and any other sends the proposal on to the first member.
pub new_leader_group :
    (first : ℕ) (others : List ℕ) (me value : ℕ) (l : Leader)
    → new_leader (first ∷ others) me ≡ some l
    → (l.elected_leader ≡ first)
      × (l.is_elected ≡ nat_eq first me)
      × (l.acceptors ≡ take (length l.acceptors) (first ∷ others))
      × (length l.acceptors % 2 ≡ 1)
      × (length (first ∷ others) ≤ length l.acceptors + 1)
      × (length l.acceptors ≤ length (first ∷ others))
      × ((handle_request (propose value) l).1
          ≡ (if nat_eq first me
              then sends (accept 0 0 value) (take (length l.acceptors) (first ∷ others))
              else sends (propose value) (first ∷ []))
            ∷ [])
unfolding new_leader handle_request start_new_instance
new_leader_group m ms me v l e =
    let few : num_acceptors (m ∷ ms) ≤ length (m ∷ ms) = omega arith in
    let acc : l.acceptors ≡ take (num_acceptors (m ∷ ms)) (m ∷ ms) = ground arith in
    let count : length l.acceptors ≡ num_acceptors (m ∷ ms) =
      ap length acc ∙ length-take_le (num_acceptors (m ∷ ms)) (m ∷ ms) few in
    let firsts : l.acceptors ≡ take (length l.acceptors) (m ∷ ms) =
      acc ∙ ap (λ n. take n (m ∷ ms)) (sym count) in
    let leads : l.elected_leader ≡ m = ground arith in
    let elected : l.is_elected ≡ nat_eq m me = elim (Bool-cases (nat_eq m me)) [
      | inl mine ↦ ground (arith, mine)
      | inr others ↦ not_first m ms me l others e
    ] in
    let ballot : nat_eq m me ≡ true → l.ballot ≡ 0 = λ mine. ground (arith, mine) in
    let fresh : l.next_empty_slot ≡ 0 = ground arith in
    (
      leads,
      elected,
      firsts,
      omega (arith, count),
      omega (arith, count),
      omega (arith, count),
      elim (Bool-cases (nat_eq m me)) [
        | inl mine ↦ ground (arith, elected, firsts, ballot mine, fresh)
        | inr others ↦ ground (arith, elected, leads)
      ],
    )
