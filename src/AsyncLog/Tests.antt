-- ===== src/AsyncLog/Tests.antt =====
-- Concrete runs of an async log.
use slog.Base.{
  ℕ, ◌+◌, ◌*◌, ◌<◌, ◌≤◌, ◌≡◌, refl, some, List, [], ◌∷◌, arith, nat_Eq, lookup, erase_key, elem,
  true, ◌++◌, insert as put,
}
use slog.AsyncLog.{AsyncLog, empty, insert, next}
use slog.AsyncLog.Order.{
  Op, run, numbered, arrives, takes, arrivals, reads, read_in_order, read_total,
}

abbrev tens : ℕ → ℕ
tens p = p * 10

-- The items come in the wrong order.
abbrev uses : List (Op ℕ)
uses = arrives 1 10 ∷ arrives 0 0 ∷ takes ∷ takes ∷ []

abbrev drained : AsyncLog ℕ
drained = record { log = []; next_position = 2 }

uses-run : run uses (empty 0) ≡ some (drained, (0, 0) ∷ (1, 10) ∷ [])
unfolding run insert next lookup put erase_key
uses-run = refl

read_in_order_example : (0, 0) ∷ (1, 10) ∷ [] ≡ numbered tens 0 2
read_in_order_example =
    read_in_order tens 0 uses drained ((0, 0) ∷ (1, 10) ∷ [])
      (refl, omega arith, (refl, omega arith, tt)) uses-run

covers : (q : ℕ) → 5 ≤ q → q < 5 + 2 → elem q (6 ∷ 5 ∷ []) ≡ true
covers q a b = ground arith

read_total_example :
    (last : AsyncLog ℕ) × (run (arrivals tens (6 ∷ 5 ∷ []) ++ reads 2) (empty 5)
      ≡ some (last, numbered tens 5 2))
read_total_example =
    read_total tens 5 2 (6 ∷ 5 ∷ []) (refl, (refl, tt))
      ((omega arith, omega arith), ((omega arith, omega arith), tt)) covers (omega arith)
