-- ===== src/Base/Lists.antt =====
-- Lists measured by native numbers, tests for membership, and predicates by recursion.
use Prim.Native.Nat.{ℕ, zero, suc, ◌+◌, ◌<◌}
use mathlib.Core.Path.{◌≡◌, refl}
use mathlib.Core.Bool.{Bool, true, false, ◌||◌}
use mathlib.Core.List.{List, [], ◌∷◌, ◌++◌}
use mathlib.Core.Option.{Option, none, some}
use native.Mathlib.Omega.{arith}
use slog.Base.Tests.{nat_Eq, nat_eq, ltb, Eq, ◌==◌, if◌then◌else◌}

module _ {ℓ} {A : Type ℓ} where
  abbrev pub length : List A → ℕ
  length [] = 0
  length (x ∷ xs) = suc (length xs)

  pub length-append : (xs ys : List A) → length (xs ++ ys) ≡ length xs + length ys
  length-append [] ys = omega arith
  length-append (x ∷ xs) ys = omega (arith, length-append xs ys)

  abbrev pub is_empty : List A → Bool
  is_empty [] = true
  is_empty (x ∷ xs) = false

  abbrev pub get_elem? : List A → ℕ → Option A
  get_elem? [] i = none
  get_elem? (x ∷ xs) zero = some x
  get_elem? (x ∷ xs) (suc i) = get_elem? xs i

abbrev pub All {ℓ κ} : {A : Type ℓ} → (A → Type κ) → List A → Type κ
All P [] = Unit
All P (x ∷ xs) = P x × All P xs

pub All-append {ℓ κ} :
    {A : Type ℓ} (P : A → Type κ) (xs ys : List A) → All P xs → All P ys → All P (xs ++ ys)
All-append P [] ys hx hy = hy
All-append P (x ∷ xs) ys hx hy = (hx.0, All-append P xs ys hx.1 hy)

pub All-imp {ℓ κ μ} :
    {A : Type ℓ} (P : A → Type κ) (Q : A → Type μ) (xs : List A)
    → ((x : A) → P x → Q x)
    → All P xs
    → All Q xs
All-imp P Q [] f h = tt
All-imp P Q (x ∷ xs) f h = (f x h.0, All-imp P Q xs f h.1)

module _ {ℓ} {A : Type ℓ} ⦃e : Eq A⦄ where
  abbrev pub elem : A → List A → Bool
  elem a [] = false
  elem a (x ∷ xs) = x == a || elem a xs

  -- `std::find` and `erase`: the first occurrence goes.
  abbrev pub erase : A → List A → List A
  erase a [] = []
  erase a (x ∷ xs) = if x == a then xs else x ∷ erase a xs

  -- How often an item occurs.
  abbrev pub count : A → List A → ℕ
  count a [] = 0
  count a (x ∷ xs) = (if x == a then 1 else 0) + count a xs

  pub count-append : (a : A) (xs ys : List A) → count a (xs ++ ys) ≡ count a xs + count a ys
  count-append a [] ys = omega arith
  count-append a (x ∷ xs) ys = omega (arith, count-append a xs ys)

-- `std::sort`, `std::unique` and `erase` on numbers: in increasing order, each once.
abbrev pub insert_sorted : ℕ → List ℕ → List ℕ
insert_sorted a [] = a ∷ []
insert_sorted a (x ∷ xs) =
    if nat_eq a x then x ∷ xs else if ltb a x then a ∷ x ∷ xs else x ∷ insert_sorted a xs

unfoldable pub sort_unique : List ℕ → List ℕ
sort_unique [] = []
sort_unique (x ∷ xs) = insert_sorted x (sort_unique xs)

-- Increasing, and so without duplicates.
abbrev pub Increasing : List ℕ → Type 0
Increasing [] = Unit
Increasing (x ∷ xs) = All (λ y. x < y) xs × Increasing xs

All-insert_sorted :
    (lo a : ℕ) (xs : List ℕ)
    → lo < a
    → All (λ y. lo < y) xs
    → All (λ y. lo < y) (insert_sorted a xs)
All-insert_sorted lo a [] h hs = (h, tt)
All-insert_sorted lo a (x ∷ xs) h hs = ground (arith, All-insert_sorted lo a xs h hs.1)

insert_sorted-Increasing : (a : ℕ) (xs : List ℕ) → Increasing xs → Increasing (insert_sorted a xs)
insert_sorted-Increasing a [] h = (tt, tt)
insert_sorted-Increasing a (x ∷ xs) h = ground (
  arith,
  insert_sorted-Increasing a xs h.1,
  All-insert_sorted x a xs,
  All-imp (λ y. x < y) (λ y. a < y) xs,
)

pub sort_unique-Increasing : (xs : List ℕ) → Increasing (sort_unique xs)
unfolding sort_unique
sort_unique-Increasing [] = tt
sort_unique-Increasing (x ∷ xs) =
    insert_sorted-Increasing x (sort_unique xs) (sort_unique-Increasing xs)

elem-insert_sorted :
    (b a : ℕ) (xs : List ℕ) → elem b (insert_sorted a xs) ≡ (nat_eq a b || elem b xs)
elem-insert_sorted b a [] = refl
elem-insert_sorted b a (x ∷ xs) = ground (arith, elem-insert_sorted b a xs)

pub elem-sort_unique : (b : ℕ) (xs : List ℕ) → elem b (sort_unique xs) ≡ elem b xs
unfolding sort_unique
elem-sort_unique b [] = refl
elem-sort_unique b (x ∷ xs) =
    ground (arith, elem-insert_sorted b x (sort_unique xs), elem-sort_unique b xs)

pub elem-append : (b : ℕ) (xs ys : List ℕ) → elem b (xs ++ ys) ≡ (elem b xs || elem b ys)
elem-append b [] ys = refl
elem-append b (x ∷ xs) ys = ground (arith, elem-append b xs ys)

pub elem_of_count : (b : ℕ) (xs : List ℕ) → elem b xs ≡ true → 0 < count b xs
elem_of_count b [] h = absurd (ground arith)
elem_of_count b (x ∷ xs) h = ground (arith, elem_of_count b xs)
