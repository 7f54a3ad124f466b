-- ===== src/Paxos/Agreement.antt =====
-- The messages of a leader over a whole run: what each message may do to what is sent later.
pub mod Runs
use slog.Base.{
  ℕ, suc, ◌+◌, ◌/◌, ◌^◌, ◌≤◌, ◌<◌, ◌≡◌, ◌≢◌, refl, sym, ap, subst, ◌∙◌, Bool, true, false, Option,
  none, some, List, [], ◌∷◌, ◌++◌, All, All-append, All-imp, arith, Map, has, lookup, insert,
  erase_key, lookup-insert, lookup-erase_key, nat_Eq, nat_eq, length, if◌then◌else◌, Option-cases,
  Bool-cases, inl, inr,
}
use slog.Paxos.{Message, propose, accept, commit, accepted, committed, Effect, sends, reports}
use slog.Paxos.Leader.{
  Leader, PaxosInstance, handle_request, handle_response, start_new_instance,
  process_commit_request, count_accept, count_commit,
}

-- A message goes to `HandleResponse` or to `HandleRequest`.
unfoldable pub handle : Message → Leader → Leader × List Effect
handle (accepted ballot slot) l = handle_response (accepted ballot slot) l
handle (committed slot) l = handle_response (committed slot) l
handle m l = handle_request m l

unfoldable pub run : List Message → Leader → Leader × List Effect
unfolding handle
run [] l = (l, [])
run (m ∷ ms) l = let (l', now) = handle m l in let (last, later) = run ms l' in (last, now ++ later)

-- No slot number wraps: the run stays below 2^32 - 1 slots.
abbrev pub Fits : Message → Leader → Type 0
Fits (propose value) l = suc l.next_empty_slot < 2 ^ 32
Fits (commit slot value leader) l = suc slot < 2 ^ 32
Fits _ l = Unit

abbrev pub Fitting : List Message → Leader → Type 0
Fitting [] l = Unit
Fitting (m ∷ ms) l = Fits m l × Fitting ms (handle m l).0

-- How many accept responses came for a slot.
abbrev pub acks : ℕ → List Message → ℕ
acks s [] = 0
acks s (accepted ballot slot ∷ ms) = (if nat_eq slot s then 1 else 0) + acks s ms
acks s (m ∷ ms) = acks s ms

-- The values of the slots, `chosen`, and the messages got, `got`, allow what is sent.
abbrev pub Allowed : ℕ → Map ℕ ℕ → List Message → Effect → Type 0
Allowed majority chosen got (sends (accept ballot slot value) to) = lookup slot chosen ≡ some value
Allowed majority chosen got (sends (commit slot value leader) to) =
    (lookup slot chosen ≡ some value) × (majority ≤ acks slot got)
Allowed majority chosen got _ = Unit

pub record Inv (majority : ℕ) (chosen : Map ℕ ℕ) (got : List Message) (l : Leader) : Type 0 where
  pub quorum : length l.acceptors / 2 + 1 ≡ majority
  pub below : (s v : ℕ) → lookup s chosen ≡ some v → s < l.next_empty_slot
  pub started :
      (s : ℕ) (i : PaxosInstance)
      → lookup s l.instances ≡ some i
      → (lookup s chosen ≡ some i.value) × (i.num_accepts ≤ acks s got)

-- More chosen slots and more messages allow the same, and more.
pub record Extends (chosen chosen' : Map ℕ ℕ) : Type 0 where
  pub keeps : (s v : ℕ) → lookup s chosen ≡ some v → lookup s chosen' ≡ some v

pub Allowed-mono :
    (majority : ℕ) (chosen chosen' : Map ℕ ℕ) (got : List Message) (m : Message) (e : Effect)
    → Extends chosen chosen'
    → Allowed majority chosen got e
    → Allowed majority chosen' (m ∷ got) e
Allowed-mono q c c' got m (sends (accept b s v) to) x h = x.keeps s v h
Allowed-mono q c c' got (accepted b' s') (sends (commit s v l) to) x h =
    (x.keeps s v h.0, ground arith)
Allowed-mono q c c' got (propose w) (sends (commit s v l) to) x h = (x.keeps s v h.0, h.1)
Allowed-mono q c c' got (accept b' s' w) (sends (commit s v l) to) x h = (x.keeps s v h.0, h.1)
Allowed-mono q c c' got (commit s' w l') (sends (commit s v l) to) x h = (x.keeps s v h.0, h.1)
Allowed-mono q c c' got (committed s') (sends (commit s v l) to) x h = (x.keeps s v h.0, h.1)
Allowed-mono q c c' got m (sends (propose w) to) x h = tt
Allowed-mono q c c' got m (sends (accepted b s) to) x h = tt
Allowed-mono q c c' got m (sends (committed s) to) x h = tt
Allowed-mono q c c' got m (reports s v l) x h = tt

-- What one message does to the invariant, with the values chosen after it.
abbrev pub After : ℕ → Map ℕ ℕ → List Message → Leader × List Effect → Type 0
After majority chosen got (l, effects) =
    (chosen' : Map ℕ ℕ) × Extends chosen chosen'
    × Inv majority chosen' got l
    × All (Allowed majority chosen' got) effects

pub Extends-refl : (c : Map ℕ ℕ) → Extends c c
Extends-refl c = record { keeps = λ s v h. h }

acks_mono : (m : Message) (got : List Message) (s : ℕ) → acks s got ≤ acks s (m ∷ got)
acks_mono (accepted b s') got s = omega arith
acks_mono (propose w) got s = omega arith
acks_mono (accept b s' w) got s = omega arith
acks_mono (commit s' w l') got s = omega arith
acks_mono (committed s') got s = omega arith

module _ (majority : ℕ) (chosen : Map ℕ ℕ) (got : List Message) (l : Leader)
    (v : Inv majority chosen got l) where
  -- A message that starts nothing and counts nothing.
  Inv-more : (m : Message) → Inv majority chosen (m ∷ got) l
  Inv-more m = record {
    quorum = v.quorum;
    below = v.below;
    started = λ s i h. let (is, le) = v.started s i h in (is, omega (arith, acks_mono m got s));
  }

  start_new_instance-After :
      (m : Message) (value : ℕ)
      → suc l.next_empty_slot < 2 ^ 32
      → After majority chosen (m ∷ got) (start_new_instance value l)
  unfolding start_new_instance
  start_new_instance-After m value fits = (
    insert n value chosen,
    record { keeps = λ s w h. ground (arith, lookup-insert n s value chosen, v.below s w h) },
    record {
      quorum = v.quorum;
      below = λ s w h. ground (arith, lookup-insert n s value chosen, v.below s w);
      started = λ s i h. ground (
        arith,
        lookup-insert n s value chosen,
        lookup-insert n s fresh l.instances,
        v.started s i,
        acks_mono m got s,
        fresh_slot s i,
      );
    },
    (ground (arith, lookup-insert n n value chosen), tt),
  )
    where
      n : ℕ
      n = l.next_empty_slot

      fresh : PaxosInstance
      fresh = record { ballot = l.ballot; value = value; num_accepts = 0; num_commits = 0 }

      -- No instance has been started for the next slot.
      fresh_slot : (s : ℕ) (i : PaxosInstance) → lookup s l.instances ≡ some i → s < n
      fresh_slot s i h = v.below s i.value (v.started s i h).0

  count_accept-After :
      (ballot slot : ℕ) (i : PaxosInstance)
      → lookup slot l.instances ≡ some i
      → After majority chosen (accepted ballot slot ∷ got) (count_accept slot i l)
  unfolding count_accept
  count_accept-After ballot slot i e = (
    chosen,
    Extends-refl chosen,
    record {
      quorum = v.quorum;
      below = v.below;
      started = λ s j h.
          ground
            (arith, lookup-insert slot s counted l.instances, v.started s j, v.started slot i e);
    },
    sent (nat_eq counted.num_accepts (length l.acceptors / 2 + 1)) refl,
  )
    where
      counted : PaxosInstance
      counted = record i { num_accepts = i.num_accepts + 1 }

      sent :
          (b : Bool)
          → nat_eq counted.num_accepts (length l.acceptors / 2 + 1) ≡ b
          → All
              (Allowed majority chosen (accepted ballot slot ∷ got))
              (if b then sends (commit slot i.value l.me) l.members ∷ [] else [])
      sent false h = tt
      sent true h = let (is, le) = v.started slot i e in ((is, ground (arith, v.quorum)), tt)

  count_commit-After :
      (m : Message) (slot : ℕ) (i : PaxosInstance)
      → lookup slot l.instances ≡ some i
      → After majority chosen (m ∷ got) (count_commit slot i l, [])
  unfolding count_commit
  count_commit-After m slot i e = (
    chosen,
    Extends-refl chosen,
    record {
      quorum = ground (arith, v.quorum);
      below = λ s w h. ground (arith, v.below s w h);
      started = λ s j h. ground (
        arith,
        lookup-insert slot s (record i { num_commits = i.num_commits + 1 }) l.instances,
        lookup-erase_key slot s l.instances,
        v.started s j,
        v.started slot i e,
        acks_mono m got s,
      );
    },
    tt,
  )

  pub handle-After : (m : Message) → Fits m l → After majority chosen (m ∷ got) (handle m l)
  unfolding handle handle_request handle_response process_commit_request
  handle-After (propose value) fits = choose l.is_elected
    where
      choose :
          (b : Bool)
          → After majority chosen (propose value ∷ got) (
              if b
              then start_new_instance value l
              else (l, sends (propose value) (l.elected_leader ∷ []) ∷ []))
      choose true = start_new_instance-After (propose value) value fits
      choose false = (chosen, Extends-refl chosen, Inv-more (propose value), (tt, tt))
  handle-After (accept b s w) fits = (chosen, Extends-refl chosen, Inv-more (accept b s w), tt)
  handle-After (commit slot value leader) fits = (
    chosen,
    Extends-refl chosen,
    record {
      quorum = ground (arith, v.quorum);
      below = λ s w h. ground (arith, v.below s w h);
      started = λ s i h. ground (arith, v.started s i);
    },
    (tt, tt),
  )
  handle-After (accepted b s) fits = find (lookup s l.instances) refl
    where
      find :
          (o : Option PaxosInstance)
          → lookup s l.instances ≡ o
          → After majority chosen
              (accepted b s ∷ got)
              (elim o [ none ↦ (l, []) | some i ↦ count_accept s i l ])
      find none e = (chosen, Extends-refl chosen, Inv-more (accepted b s), tt)
      find (some i) e = count_accept-After b s i e
  handle-After (committed s) fits = find (lookup 0 l.instances) refl
    where
      find :
          (o : Option PaxosInstance)
          → lookup 0 l.instances ≡ o
          → After majority chosen
              (committed s ∷ got)
              (elim o [ none ↦ (l, []) | some i ↦ (count_commit 0 i l, []) ])
      find none e = (chosen, Extends-refl chosen, Inv-more (committed s), tt)
      find (some i) e = count_commit-After (committed s) 0 i e
