-- ===== src/AsyncLog.antt =====
-- data_structure/async_log.h: items numbered consecutively, added in any order and read in order.
-- The positions are uint32_t; a `throw` is `none`.
pub mod Holds
pub mod Order
mod Tests
use slog.Base.{
  ℕ, ◌+◌, ◌%◌, ◌^◌, ◌≡◌, refl, Bool, Option, none, some, [], arith, ltb, if◌then◌else◌, Map, has,
  lookup, erase_key, nat_Eq, ◌>>=◌,
}
use slog.Base.{insert as put}

pub record AsyncLog {ℓ} (T : Type ℓ) : Type ℓ where
  pub log : Map ℕ T
  pub next_position : ℕ

module _ {ℓ} {T : Type ℓ} where
  abbrev pub empty : ℕ → AsyncLog T
  empty start_from = record { log = []; next_position = start_from }

  -- `Insert`
  unfoldable pub insert : ℕ → T → AsyncLog T → Option (AsyncLog T)
  insert position item l =
      if ltb position l.next_position
      then some l
      else if has position l.log
      then none
      else some (record l { log = put position item l.log })

  -- `HasNext`
  abbrev pub has_next : AsyncLog T → Bool
  has_next l = has l.next_position l.log

  -- `Peek`; `unordered_map::at` throws for a key that is not there
  abbrev pub peek : AsyncLog T → Option T
  peek l = lookup l.next_position l.log

  -- `Next`
  unfoldable pub next : AsyncLog T → Option ((ℕ × T) × AsyncLog T)
  next l = do
    res ← lookup l.next_position l.log
    some (
      (l.next_position, res),
      record l {
        log = erase_key l.next_position l.log;
        next_position = (l.next_position + 1) % 2 ^ 32;
      },
    )
