-- ===== src/Paxos/Acceptor.antt =====
-- paxos/acceptor.h and .cpp: what an acceptor answers.
use slog.Base.{ℕ, List, [], ◌∷◌, ltb, if◌then◌else◌}
use slog.Paxos.{Message, accept, commit, accepted, committed, Effect, sends}

pub record Acceptor : Type 0 where
  pub ballot : ℕ

-- `HandleRequest`, with the machine that the request comes from.
unfoldable pub handle_request : Message → ℕ → Acceptor → Acceptor × List Effect
handle_request (accept ballot slot value) from a =
    if ltb ballot a.ballot
    then (a, [])
    else (record { ballot = ballot }, sends (accepted ballot slot) (from ∷ []) ∷ [])
handle_request (commit slot value leader) from a = (a, sends (committed slot) (from ∷ []) ∷ [])
handle_request m from a = (a, [])
