-- ===== src/Paxos/Tests.antt =====
-- A leader of three members that orders two values.
use slog.Base.{
  ℕ, ◌+◌, ◌/◌, ◌%◌, ◌≤◌, ◌≡◌, refl, true, some, List, [], ◌∷◌, lookup, insert, nat_Eq, has, arith,
  inl, inr, length, false,
}
use slog.Paxos.{Message, propose, accept, commit, accepted, committed, Effect, sends}
use slog.Paxos.Leader.{
  Leader, new_leader, start_new_instance, handle_request, handle_response, count_accept,
}
use slog.Paxos.Acceptor
use slog.Paxos.Acceptor.{Acceptor}
use slog.Paxos.Agreement.{handle, run, Fitting, acks}
use slog.Paxos.Agreement.Runs.{Has, agreement, commit_at_majority}
use slog.Paxos.Leaks.{instances_never_removed, new_leader_group}
use slog.Paxos.Promises
use slog.Paxos.Promises.{Request, KeepsPromise, ballot_never_falls}

abbrev members : List ℕ
members = 10 ∷ 11 ∷ 12 ∷ []

abbrev leader : Leader
leader = record {
  members = members;
  acceptors = members;
  me = 10;
  is_elected = true;
  is_member = true;
  elected_leader = 10;
  next_empty_slot = 0;
  ballot = 0;
  instances = [];
}

leader_starts : new_leader members 10 ≡ some leader
unfolding new_leader
leader_starts = refl

abbrev messages : List Message
messages = propose 111 ∷ propose 222 ∷ accepted 0 1 ∷ accepted 0 1 ∷ []

messages_fit : Fitting messages leader
unfolding handle handle_request handle_response start_new_instance count_accept lookup insert
messages_fit = (omega arith, (omega arith, (tt, (tt, tt))))

abbrev asked : Effect
asked = sends (accept 0 1 222) members

abbrev decided : Effect
decided = sends (commit 1 222 10) members

Has-asked : Has asked (run messages leader).1
unfolding run handle handle_request handle_response start_new_instance count_accept lookup insert
Has-asked = inr (inl refl)

Has-decided : Has decided (run messages leader).1
unfolding run handle handle_request handle_response start_new_instance count_accept lookup insert
Has-decided = inr (inr (inl refl))

agreement_example : ◌≡◌ {A = ℕ} 222 222
agreement_example =
    agreement messages leader refl messages_fit asked decided 1 222 222 Has-asked Has-decided refl
      refl

commit_at_majority_example : length leader.acceptors / 2 + 1 ≤ acks 1 messages
commit_at_majority_example =
    commit_at_majority messages leader refl messages_fit 1 222 10 members Has-decided

-- Slot 1 is committed, and all members have said so.
abbrev done : List Message
done = committed 1 ∷ committed 1 ∷ committed 1 ∷ []

instance_there : has 1 (run messages leader).0.instances ≡ true
unfolding run handle handle_request handle_response start_new_instance count_accept lookup insert
instance_there = refl

instances_never_removed_example : has 1 (run done (run messages leader).0).0.instances ≡ true
instances_never_removed_example =
    instances_never_removed done (run messages leader).0 1 (λ e. absurd (omega arith))
      instance_there

abbrev requests : List Request
requests =
    (accept 3 0 111, 10) ∷ (accept 2 0 222, 11) ∷ (commit 0 111 10, 10) ∷ (accept 4 1 333, 12) ∷ []

requests_answered : Promises.run requests (record { ballot = 1 }) ≡ (
  record { ballot = 4 },
  sends (accepted 3 0) (10 ∷ [])
      ∷ sends (committed 0) (10 ∷ [])
      ∷ sends (accepted 4 1) (12 ∷ [])
      ∷ [],
)
unfolding Promises.run Acceptor.handle_request
requests_answered = refl

ballot_never_falls_example : KeepsPromise requests 5 1 333 12 (record { ballot = 1 })
ballot_never_falls_example = ballot_never_falls requests 5 1 333 12 (record { ballot = 1 })

new_leader_group_example :
    (leader.elected_leader ≡ 10)
    × (leader.is_elected ≡ true)
    × (leader.acceptors ≡ members)
    × (3 % 2 ≡ 1)
    × (3 ≤ 4)
    × (3 ≤ 3)
    × ((handle_request (propose 7) leader).1 ≡ sends (accept 0 0 7) members ∷ [])
new_leader_group_example = new_leader_group 10 (11 ∷ 12 ∷ []) 10 7 leader leader_starts

-- Machine 12 is a member and not the first.
abbrev follower : Leader
follower = record leader { me = 12; is_elected = false; ballot = 2 }

follower_starts : new_leader members 12 ≡ some follower
unfolding new_leader
follower_starts = refl
