-- ===== src/TxnHolder/Finalize.antt =====
-- module/scheduler_components/txn_holder.cpp, FinalizeAndRelease: the events of the lock-only
-- transactions move to the main transaction, which leaves the holder.
use slog.Base.{
  ℕ, zero, suc, Bool, ◌&&◌, Option, none, some, List, [], ◌∷◌, ◌++◌, map, if◌then◌else◌, length,
  ◌>>=◌, nat_eq, ltb,
}
use slog.Txn.{Transaction, TransactionEventInfo, int_eq}
use slog.TxnHolder.{TxnHolder, slot, nulls}

abbrev pub Event : Type 0
Event = TransactionEventInfo

abbrev pub same_event : Event → Event → Bool
same_event a b = nat_eq a.event b.event && int_eq a.time b.time && int_eq a.machine b.machine

abbrev pub nth : ℕ → List Event → Option Event
nth i [] = none
nth zero (e ∷ es) = some e
nth (suc i) (e ∷ es) = nth i es

abbrev pub drop : ℕ → List Event → List Event
drop zero es = es
drop (suc n) [] = []
drop (suc n) (e ∷ es) = drop n es

-- `set_home` on each event of a transaction
abbrev pub homed : Transaction → List Event
homed txn = map (λ (e : Event). record e { home = txn.internal.home }) txn.internal.events

-- Event `i` of a transaction, against that of the main one; `events(i)` is there below the cutoff.
abbrev pub lower : List Event → ℕ → Event → ℕ → ℕ
lower main i e cutoff =
    if ltb i cutoff
    then elim (nth i main) [ none ↦ cutoff | some m ↦ if same_event m e then cutoff else i ]
    else cutoff

-- The loop over the events of one transaction, from index `i` on.
unfoldable pub cutoff_in : List Event → ℕ → List Event → ℕ → ℕ
cutoff_in main i [] cutoff = cutoff
cutoff_in main i (e ∷ es) cutoff = cutoff_in main (suc i) es (lower main i e cutoff)

-- The first loop over the transactions.
unfoldable pub cutoff_of : List Event → List (Option Transaction) → ℕ → ℕ
cutoff_of main [] cutoff = cutoff
cutoff_of main (none ∷ ts) cutoff = cutoff_of main ts cutoff
cutoff_of main (some t ∷ ts) cutoff = cutoff_of main ts (cutoff_in main 0 t.internal.events cutoff)

-- The second loop: the events after the cutoff, of all transactions but the main one.
unfoldable pub moved : ℕ → ℕ → ℕ → List (Option Transaction) → List Event
moved main_idx cutoff i [] = []
moved main_idx cutoff i (none ∷ ts) = moved main_idx cutoff (suc i) ts
moved main_idx cutoff i (some t ∷ ts) =
    (if nat_eq i main_idx then [] else drop cutoff (homed t)) ++ moved main_idx cutoff (suc i) ts

-- `FinalizeAndRelease`; without a main transaction it is `none`.
unfoldable pub finalize_and_release : TxnHolder → Option (Transaction × TxnHolder)
finalize_and_release h = do
  there ← slot h.main_txn_idx h.lo_txns
  main ← there
  let events = main.internal.events
  let cutoff = cutoff_of events h.lo_txns (length events)
  some (
    record main {
      internal = record main.internal {
        events = homed main ++ moved h.main_txn_idx cutoff 0 h.lo_txns;
      };
    },
    record h { lo_txns = nulls (length h.lo_txns) },
  )
