-- ===== src/Base/Flags.antt =====
-- `vector<bool>` as a set of indices: flags that are set, and the indices of those that are.
use Prim.Native.Nat.{ℕ, zero, suc, ◌+◌, ◌≤◌, ◌<◌}
use mathlib.Core.Path.{◌≡◌, refl, sym, ap₂, ◌∙◌}
use mathlib.Core.Bool.{Bool, true, false, ◌||◌}
use mathlib.Core.List.{List, [], ◌∷◌}
use native.Mathlib.Omega.{arith}
use slog.Base.Tests.{nat_Eq, nat_eq, if◌then◌else◌}
use slog.Base.Lists.{
  length, All, elem, Increasing, sort_unique, sort_unique-Increasing, elem-sort_unique,
}

-- `vector<bool>(n, false)`
abbrev pub cleared : ℕ → List Bool
cleared zero = []
cleared (suc n) = false ∷ cleared n

-- `resize(n)`
abbrev pub resize : ℕ → List Bool → List Bool
resize zero bits = []
resize (suc n) [] = false ∷ resize n []
resize (suc n) (b ∷ bits) = b ∷ resize n bits

-- `bits[i] = true`
abbrev pub set_flag : ℕ → List Bool → List Bool
set_flag i [] = []
set_flag zero (b ∷ bits) = true ∷ bits
set_flag (suc i) (b ∷ bits) = b ∷ set_flag i bits

abbrev pub flag : ℕ → List Bool → Bool
flag i [] = false
flag zero (b ∷ bits) = b
flag (suc i) (b ∷ bits) = flag i bits

-- The loop that collects the indices of the flags that are set, from index `i` on.
abbrev pub flagged : ℕ → List Bool → List ℕ
flagged i [] = []
flagged i (b ∷ bits) = let rest = flagged (suc i) bits in if b then i ∷ rest else rest

pub flag-cleared : (i n : ℕ) → flag i (cleared n) ≡ false
flag-cleared i zero = refl
flag-cleared zero (suc n) = refl
flag-cleared (suc i) (suc n) = flag-cleared i n

pub length-cleared : (n : ℕ) → length (cleared n) ≡ n
length-cleared zero = refl
length-cleared (suc n) = omega (arith, length-cleared n)

pub length-set_flag : (i : ℕ) (bits : List Bool) → length (set_flag i bits) ≡ length bits
length-set_flag i [] = refl
length-set_flag zero (b ∷ bits) = refl
length-set_flag (suc i) (b ∷ bits) = omega (arith, length-set_flag i bits)

pub flag-set_flag :
    (i j : ℕ) (bits : List Bool)
    → i < length bits
    → flag j (set_flag i bits) ≡ (nat_eq i j || flag j bits)
flag-set_flag i j [] h = absurd (omega arith)
flag-set_flag zero zero (b ∷ bits) h = refl
flag-set_flag zero (suc j) (b ∷ bits) h = ground arith
flag-set_flag (suc i) zero (b ∷ bits) h = ground arith
flag-set_flag (suc i) (suc j) (b ∷ bits) h = ground (arith, flag-set_flag i j bits)

pub length-resize : (n : ℕ) (bits : List Bool) → length (resize n bits) ≡ n
length-resize zero bits = refl
length-resize (suc n) [] = omega (arith, length-resize n [])
length-resize (suc n) (b ∷ bits) = omega (arith, length-resize n bits)

pub flag-resize :
    (n j : ℕ) (bits : List Bool) → length bits ≤ n → flag j (resize n bits) ≡ flag j bits
flag-resize zero j [] h = refl
flag-resize zero j (b ∷ bits) h = absurd (omega arith)
flag-resize (suc n) zero [] h = refl
flag-resize (suc n) (suc j) [] h = flag-resize n j [] (omega arith)
flag-resize (suc n) zero (b ∷ bits) h = refl
flag-resize (suc n) (suc j) (b ∷ bits) h = flag-resize n j bits (omega arith)

All-flagged : (lo i : ℕ) (bits : List Bool) → lo < i → All (λ y. lo < y) (flagged i bits)
All-flagged lo i [] h = tt
All-flagged lo i (true ∷ bits) h = (h, All-flagged lo (suc i) bits (omega arith))
All-flagged lo i (false ∷ bits) h = All-flagged lo (suc i) bits (omega arith)

pub flagged-Increasing : (i : ℕ) (bits : List Bool) → Increasing (flagged i bits)
flagged-Increasing i [] = tt
flagged-Increasing i (true ∷ bits) =
    (All-flagged i (suc i) bits (omega arith), flagged-Increasing (suc i) bits)
flagged-Increasing i (false ∷ bits) = flagged-Increasing (suc i) bits

absent_below : (r lo : ℕ) (xs : List ℕ) → All (λ y. lo < y) xs → r ≤ lo → elem r xs ≡ false
absent_below r lo [] h le = refl
absent_below r lo (x ∷ xs) h le = ground (arith, absent_below r lo xs)

elem-flagged : (i k r : ℕ) (bits : List Bool) → r ≡ i + k → elem r (flagged i bits) ≡ flag k bits
elem-flagged i k r [] e = refl
elem-flagged i zero r (true ∷ bits) e = ground arith
elem-flagged i zero r (false ∷ bits) e =
    absent_below r i (flagged (suc i) bits) (All-flagged i (suc i) bits (omega arith)) (omega arith)
elem-flagged i (suc k) r (true ∷ bits) e = ground (arith, elem-flagged (suc i) k r bits)
elem-flagged i (suc k) r (false ∷ bits) e = elem-flagged (suc i) k r bits (omega arith)

-- The indices that are found are those of the flags that are set.
pub elem-flagged_all : (r : ℕ) (bits : List Bool) → elem r (flagged 0 bits) ≡ flag r bits
elem-flagged_all r bits = elem-flagged 0 r r bits (omega arith)

-- Lists in increasing order are settled by what is in them.
pub Increasing-ext :
    (xs ys : List ℕ) → Increasing xs → Increasing ys → ((r : ℕ) → elem r xs ≡ elem r ys) → xs ≡ ys
Increasing-ext [] [] hx hy h = refl
Increasing-ext [] (y ∷ ys) hx hy h = absurd (ground (arith, h y))
Increasing-ext (x ∷ xs) [] hx hy h = absurd (ground (arith, h x))
Increasing-ext (x ∷ xs) (y ∷ ys) hx hy h =
    let same : x ≡ y =
      ground (arith, h x, h y, absent_below x y ys hy.0, absent_below y x xs hx.0) in
    ap₂ ◌∷◌ same (
      Increasing-ext xs ys hx.1 hy.1
        (λ r. ground (arith, same, h r, absent_below r x xs hx.0, absent_below r y ys hy.0)))

-- Flags collect what sorting and dropping duplicates does.
pub flagged-eq-sort_unique :
    (xs : List ℕ) (bits : List Bool)
    → ((r : ℕ) → flag r bits ≡ elem r xs)
    → flagged 0 bits ≡ sort_unique xs
flagged-eq-sort_unique xs bits h =
    Increasing-ext (flagged 0 bits) (sort_unique xs) (flagged-Increasing 0 bits)
      (sort_unique-Increasing xs) (λ r. elem-flagged_all r bits ∙ h r ∙ sym (elem-sort_unique r xs))
