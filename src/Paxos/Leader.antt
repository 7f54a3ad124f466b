-- ===== src/Paxos/Leader.antt =====
-- paxos/leader.h and .cpp: the instances that a leader starts, and the majorities that it counts.
use slog.Base.{
  ℕ, zero, suc, ◌+◌, ◌-◌, ◌*◌, ◌/◌, ◌%◌, ◌^◌, Bool, true, false, Option, none, some, List, [], ◌∷◌,
  Map, has, lookup, insert, erase_key, nat_Eq, nat_eq, leb, if◌then◌else◌, length, ◌>>=◌, get_elem?,
}
use slog.Paxos.{Message, propose, accept, commit, accepted, committed, Effect, sends, reports}

pub record PaxosInstance : Type 0 where
  pub ballot : ℕ
  pub value : ℕ
  pub num_accepts : ℕ
  pub num_commits : ℕ

pub record Leader : Type 0 where
  pub members : List ℕ
  pub acceptors : List ℕ
  pub me : ℕ
  pub is_elected : Bool
  pub is_member : Bool
  pub elected_leader : ℕ
  pub next_empty_slot : ℕ
  pub ballot : ℕ
  pub instances : Map ℕ PaxosInstance

-- `std::find(members.begin(), members.end(), me) - members.begin()`
abbrev pub position : ℕ → List ℕ → Option ℕ
position me [] = none
position me (m ∷ ms) = if nat_eq m me then some 0 else (position me ms >>= λ p. some (suc p))

-- The constructor's loop over `members_[i]`; out of range is undefined there.
abbrev pub take : ℕ → List ℕ → List ℕ
take zero ms = []
take (suc n) [] = []
take (suc n) (m ∷ ms) = m ∷ take n ms

-- The largest odd number of members
abbrev pub num_acceptors : List ℕ → ℕ
num_acceptors members = (length members - 1) / 2 * 2 + 1

-- The constructor, for a group that is not empty; the first member is the leader. `ballot_` is left
-- without a value on a machine that is no member, which never uses it: 0 here.
unfoldable pub new_leader : List ℕ → ℕ → Option Leader
new_leader members me = do
  first ← get_elem? members 0
  some (record {
    members = members;
    acceptors = take (num_acceptors members) members;
    me = me;
    is_elected = elim (position me members) [ none ↦ false | some p ↦ nat_eq p 0 ];
    is_member = elim (position me members) [ none ↦ false | some p ↦ true ];
    elected_leader = first;
    next_empty_slot = 0;
    ballot = elim (position me members) [ none ↦ 0 | some p ↦ p ];
    instances = [];
  })

-- `StartNewInstance`: `try_emplace` leaves an instance that is there. Slots are uint32.
unfoldable pub start_new_instance : ℕ → Leader → Leader × List Effect
start_new_instance value l = (
  record l {
    instances =
        if has l.next_empty_slot l.instances
        then l.instances
        else insert l.next_empty_slot
            (record { ballot = l.ballot; value = value; num_accepts = 0; num_commits = 0 })
            l.instances;
    next_empty_slot = (l.next_empty_slot + 1) % 2 ^ 32;
  },
  sends (accept l.ballot l.next_empty_slot value) l.acceptors ∷ [],
)

-- `ProcessCommitRequest`: `OnCommit` takes a uint32 value, so a value is cut to 32 bits there.
unfoldable pub process_commit_request : ℕ → ℕ → ℕ → Leader → Leader × List Effect
process_commit_request slot value leader l = (
  if leb l.next_empty_slot slot then record l { next_empty_slot = (slot + 1) % 2 ^ 32 } else l,
  reports slot (value % 2 ^ 32) leader ∷ [],
)

-- `HandleRequest`
unfoldable pub handle_request : Message → Leader → Leader × List Effect
unfolding start_new_instance process_commit_request
handle_request (propose value) l =
    if l.is_elected
    then start_new_instance value l
    else (l, sends (propose value) (l.elected_leader ∷ []) ∷ [])
handle_request (commit slot value leader) l = process_commit_request slot value leader l
handle_request m l = (l, [])

-- An accept response, for the instance of its slot: the commit goes out at a majority.
unfoldable pub count_accept : ℕ → PaxosInstance → Leader → Leader × List Effect
count_accept slot i l =
    let i' = record i { num_accepts = i.num_accepts + 1 } in
    (
      record l { instances = insert slot i' l.instances },
      if nat_eq i'.num_accepts (length l.acceptors / 2 + 1)
          then sends (commit slot i.value l.me) l.members ∷ []
          else [],
    )

-- A commit response, for an instance: it goes when all members have answered.
unfoldable pub count_commit : ℕ → PaxosInstance → Leader → Leader
count_commit slot i l =
    let i' = record i { num_commits = i.num_commits + 1 } in
    if nat_eq i'.num_commits (length l.members)
    then record l { instances = erase_key slot l.instances }
    else record l { instances = insert slot i' l.instances }

-- `HandleResponse`. For a commit response the code reads `paxos_accept().slot()`, which is not set in
-- such a response, and so is 0.
unfoldable pub handle_response : Message → Leader → Leader × List Effect
unfolding count_accept count_commit
handle_response (accepted ballot slot) l = elim (lookup slot l.instances) [
  | none ↦ (l, [])
  | some i ↦ count_accept slot i l
]
handle_response (committed slot) l = elim (lookup 0 l.instances) [
  | none ↦ (l, [])
  | some i ↦ (count_commit 0 i l, [])
]
handle_response m l = (l, [])
