-- ===== src/Base/Dict.antt =====
-- `std::unordered_map` as an association list. A key stands in it at most once: `insert` writes in
-- place, and puts a new key at the end.
use Prim.Native.Nat.{suc, ◌≤◌}
use mathlib.Core.Path.{◌≡◌, refl}
use mathlib.Core.Bool.{Bool, true, false}
use mathlib.Core.List.{List, [], ◌∷◌}
use mathlib.Core.Option.{Option, none, some}
use native.Mathlib.Omega.{arith}
use slog.Base.Tests.{Eq, ◌==◌, if◌then◌else◌}
use slog.Base.Lists.{length}

abbrev pub Map {ℓ κ} : Type ℓ → Type κ → Type (ℓ ⊔ κ)
Map K V = List (K × V)

module _ {ℓ κ} {K : Type ℓ} {V : Type κ} ⦃e : Eq K⦄ where
  -- `find`, `at`
  unfoldable pub lookup : K → Map K V → Option V
  lookup k [] = none
  lookup k ((j, v) ∷ m) = if j == k then some v else lookup k m

  -- `count(k) > 0`
  abbrev pub has : K → Map K V → Bool
  has k m = elim (lookup k m) [ none ↦ false | some _ ↦ true ]

  -- `operator[]`, which makes the default value for a key that is not there
  abbrev pub get_or : K → V → Map K V → V
  get_or k d m = elim (lookup k m) [ none ↦ d | some v ↦ v ]

  -- `insert_or_assign`
  unfoldable pub insert : K → V → Map K V → Map K V
  insert k new ((j, old) ∷ m) = if j == k then (k, new) ∷ m else (j, old) ∷ insert k new m
  insert k new [] = (k, new) ∷ []

  unfoldable pub erase_key : K → Map K V → Map K V
  erase_key k [] = []
  erase_key k ((j, v) ∷ m) = if j == k then erase_key k m else (j, v) ∷ erase_key k m

  pub lookup-insert :
      (k j : K) (new : V) (m : Map K V)
      → lookup j (insert k new m) ≡ (if k == j then some new else lookup j m)
  unfolding insert lookup
  lookup-insert k j new ((i, old) ∷ m) =
      ground (arith, e.same_iff k j, e.same_iff i k, e.same_iff i j, lookup-insert k j new m)
  lookup-insert k j new [] = refl

  pub lookup-erase_key :
      (k j : K) (m : Map K V) → lookup j (erase_key k m) ≡ (if k == j then none else lookup j m)
  unfolding lookup erase_key
  lookup-erase_key k j [] = ground arith
  lookup-erase_key k j ((i, w) ∷ m) =
      ground (arith, e.same_iff k j, e.same_iff i k, e.same_iff i j, lookup-erase_key k j m)

  pub length-erase_key-le : (k : K) (m : Map K V) → length (erase_key k m) ≤ length m
  unfolding erase_key
  length-erase_key-le k [] = omega arith
  length-erase_key-le k ((j, v) ∷ m) = ground (arith, length-erase_key-le k m)

  -- An erased key that was there makes the map smaller.
  pub length-erase_key-lt :
      (k : K) (m : Map K V) (v : V) → lookup k m ≡ some v → suc (length (erase_key k m)) ≤ length m
  unfolding lookup erase_key
  length-erase_key-lt k [] v h = ground arith
  length-erase_key-lt k ((j, w) ∷ m) v h =
      ground (arith, length-erase_key-le k m, length-erase_key-lt k m v)

  -- No key stands in the list twice.
  abbrev pub Unique : Map K V → Type κ
  Unique [] = Unit
  Unique ((k, v) ∷ m) = (lookup k m ≡ none) × Unique m

  pub insert-Unique : (k : K) (v : V) (m : Map K V) → Unique m → Unique (insert k v m)
  unfolding insert
  insert-Unique k v [] u = (unfold lookup in refl, tt)
  insert-Unique k v ((j, w) ∷ m) u =
      ground (arith, e.same_iff j k, lookup-insert k j v m, e.same_iff k j, insert-Unique k v m u.1)

  pub erase_key-Unique : (k : K) (m : Map K V) → Unique m → Unique (erase_key k m)
  unfolding erase_key
  erase_key-Unique k [] u = tt
  erase_key-Unique k ((j, w) ∷ m) u =
      ground (arith, lookup-erase_key k j m, erase_key-Unique k m u.1)

  pub erase_key-none : (k : K) (m : Map K V) → lookup k m ≡ none → erase_key k m ≡ m
  unfolding erase_key lookup
  erase_key-none k [] h = refl
  erase_key-none k ((j, w) ∷ m) h = ground (arith, erase_key-none k m)
