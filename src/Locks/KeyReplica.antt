-- ===== src/Locks/KeyReplica.antt =====
-- common/types.h, MakeKeyReplica: the name under which a lock on a key in one region is kept.
use slog.Base.{ℕ, zero, suc, ◌+◌, ◌/◌, ◌%◌, ◌≡◌, refl, List, [], ◌∷◌, ◌++◌, ltb, if◌then◌else◌}

-- `std::to_string` of an unsigned number below 10 ^ fuel
unfoldable pub to_digits : ℕ → ℕ → List ℕ
to_digits zero n = []
to_digits (suc fuel) n =
    let front = to_digits fuel (n / 10) in
    if ltb n 10 then (b'0' + n) ∷ [] else front ++ (b'0' + n % 10) ∷ []

-- A uint32 has at most ten digits.
abbrev pub to_string : ℕ → List ℕ
to_string n = to_digits 10 n

unfoldable pub make_key_replica : List ℕ → ℕ → List ℕ
unfolding to_digits
make_key_replica key master = key ++ b':' ∷ to_string master

one_region : make_key_replica (b'k' ∷ []) 102 ≡ b'k' ∷ b':' ∷ b'1' ∷ b'0' ∷ b'2' ∷ []
unfolding make_key_replica
one_region = refl
