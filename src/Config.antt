-- ===== src/Config.antt =====
-- common/configuration.cpp: the numbers of machines. A machine id is an int, made of uint32 numbers.
mod Tests
use native.Mathlib.Nat.{
  mul-add-div_right, mul-add-mod_self_right, div-eq_of_lt, mod-eq_of_lt, suc-mul,
}
use slog.Base.{
  ℕ, zero, suc, ◌+◌, ◌-◌, ◌*◌, ◌/◌, ◌%◌, ◌^◌, ◌≤◌, ◌<◌, ◌≡◌, refl, ap, ap₂, sym, ◌∙◌, subst, List,
  [], ◌∷◌, ◌++◌, arith, ℤ, pos, negsuc, ltb, if◌then◌else◌,
}
use slog.Txn.{to_int, to_uint32}

-- `MakeMachineId`
unfoldable pub make_machine_id : ℕ → ℕ → ℕ → ℤ
make_machine_id num_partitions replica partition =
    to_int ((replica * num_partitions + partition) % 2 ^ 32)

-- `UnpackMachineId`; the division is by a uint32, so the id is taken as one.
unfoldable pub unpack_machine_id : ℕ → ℤ → ℕ × ℕ
unpack_machine_id num_partitions machine_id =
    (to_uint32 machine_id / num_partitions, to_uint32 machine_id % num_partitions)

to_uint32-to_int : (n : ℕ) → n < 2 ^ 32 → to_uint32 (to_int (n % 2 ^ 32)) ≡ n
to_uint32-to_int n h = ground arith

-- A machine id unpacks to the replica and the partition that it was made of, if the partition is one
-- of the replica's and the number fits in a uint32.
pub unpack_machine_id-make_machine_id :
    (num_partitions replica partition : ℕ)
    → partition < num_partitions
    → replica * num_partitions + partition < 2 ^ 32
    → unpack_machine_id num_partitions (make_machine_id num_partitions replica partition)
      ≡ (replica, partition)
unfolding unpack_machine_id make_machine_id
unpack_machine_id-make_machine_id n r p lt fits =
    ap (λ x. (x / n, x % n)) (to_uint32-to_int (r * n + p) fits)
    ∙ ap₂ (λ a b. (a, b))
        (mul-add-div_right (omega arith) r p ∙ ap (λ x. r + x) (div-eq_of_lt lt) ∙ omega arith)
        (mul-add-mod_self_right r n p ∙ mod-eq_of_lt lt)

-- The inner and the outer loop of `all_machine_ids`.
unfoldable pub partition_ids : ℕ → ℕ → ℕ → ℕ → List ℤ
partition_ids num_partitions rep part zero = []
partition_ids num_partitions rep part (suc left) =
    make_machine_id num_partitions rep part ∷ partition_ids num_partitions rep (suc part) left

pub replica_ids : ℕ → ℕ → ℕ → List ℤ
unfolding partition_ids
replica_ids num_partitions rep zero = []
replica_ids num_partitions rep (suc left) =
    partition_ids num_partitions rep 0 num_partitions ++ replica_ids num_partitions (suc rep) left

-- `all_machine_ids`
unfoldable pub all_machine_ids : ℕ → ℕ → List ℤ
unfolding replica_ids
all_machine_ids num_replicas num_partitions = replica_ids num_partitions 0 num_replicas

abbrev pub consecutive : ℕ → ℕ → List ℤ
consecutive start zero = []
consecutive start (suc n) = pos start ∷ consecutive (suc start) n

consecutive-append : (a m n : ℕ) → consecutive a m ++ consecutive (a + m) n ≡ consecutive a (m + n)
consecutive-append a zero n = ap₂ consecutive (omega arith) (omega arith)
consecutive-append a (suc m) n =
    ap (◌∷◌ (pos a)) (
      ap (λ x. consecutive (suc a) m ++ consecutive x n) (omega arith)
      ∙ consecutive-append (suc a) m n)
    ∙ ap (consecutive a) {x = suc (m + n)} (omega arith)

make_small : (n r p : ℕ) → r * n + p < 2 ^ 31 → make_machine_id n r p ≡ pos (r * n + p)
unfolding make_machine_id
make_small n r p h = ground arith

partition_ids-eq :
    (n r p k : ℕ) → r * n + p + k ≤ 2 ^ 31 → partition_ids n r p k ≡ consecutive (r * n + p) k
unfolding partition_ids
partition_ids-eq n r p zero h = refl
partition_ids-eq n r p (suc k) h =
    ap₂ ◌∷◌ (make_small n r p (omega arith))
      (partition_ids-eq n r (suc p) k (omega arith) ∙ ap (λ x. consecutive x k) (omega arith))

replica_ids-eq :
    (n r k : ℕ) → r * n + k * n ≤ 2 ^ 31 → replica_ids n r k ≡ consecutive (r * n) (k * n)
unfolding replica_ids
replica_ids-eq n r zero h = ap (consecutive (r * n)) {x = 0} (omega arith)
replica_ids-eq n r (suc k) h =
    ap₂ ◌++◌ (partition_ids-eq n r 0 n (omega arith) ∙ ap (λ x. consecutive x n) (omega arith))
      (replica_ids-eq n (suc r) k (omega arith) ∙ ap (λ x. consecutive x (k * n)) (omega arith))
    ∙ consecutive-append (r * n) n (k * n)
    ∙ ap (consecutive (r * n)) (omega arith)

-- The machine ids are the numbers from 0 on, each once and in order, as many as there are machines,
-- if these are at most 2^31.
pub all_machine_ids-consecutive :
    (num_replicas num_partitions : ℕ)
    → num_replicas * num_partitions ≤ 2 ^ 31
    → all_machine_ids num_replicas num_partitions ≡ consecutive 0 (num_replicas * num_partitions)
unfolding all_machine_ids
all_machine_ids-consecutive r n h =
    replica_ids-eq n 0 r (omega arith) ∙ ap (λ x. consecutive x (r * n)) (omega arith)
