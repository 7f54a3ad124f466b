-- ===== src/Sequencer/Whole.antt =====
-- Batches have a part for each partition, whatever is put into them.
use slog.Base.{
  ℕ, zero, suc, ◌≡◌, sym, subst, refl, ap, ◌∙◌, Option, some, List, [], ◌∷◌, length, All, arith,
  none, >>=-eq-some, some_inj,
}
use slog.Txn.{Transaction}
use slog.Sequencer.{
  PartitionedBatch, Settings, new_parts, add_to_part, add_part, add_parts, on_back,
}
use slog.ProtoUtils.Partition.{generate_partitioned_txn}

-- The part of each partition is there.
abbrev pub IsWhole : Settings → PartitionedBatch → Type 0
IsWhole c batch = length batch ≡ c.num_partitions

pub length-new_parts : (id n : ℕ) → length (new_parts id n) ≡ n
length-new_parts id zero = refl
length-new_parts id (suc n) = omega (arith, length-new_parts id n)

length-add_to_part :
    (p : ℕ) (txn : Transaction) (batch batch' : PartitionedBatch)
    → add_to_part p txn batch ≡ some batch'
    → length batch' ≡ length batch
length-add_to_part p txn [] batch' e = absurd (ground arith)
length-add_to_part zero txn (b ∷ bs) batch' e = ap length (sym (some_inj e))
length-add_to_part (suc p) txn (b ∷ bs) batch' e =
    let (bs', added, rest) = >>=-eq-some (add_to_part p txn bs) _ e in
    ap length (sym (some_inj rest)) ∙ omega (arith, length-add_to_part p txn bs bs' added)

length-add_part :
    (p : ℕ) (part : Option Transaction) (batch batch' : PartitionedBatch)
    → add_part p part batch ≡ some batch'
    → length batch' ≡ length batch
length-add_part p none batch batch' e = ap length (sym (some_inj e))
length-add_part p (some part) batch batch' e = length-add_to_part p part batch batch' e

pub length-add_parts :
    (c : Settings) (txn : Transaction) (ps : List ℕ) (batch batch' : PartitionedBatch)
    → add_parts c txn ps batch ≡ some batch'
    → length batch' ≡ length batch
unfolding add_parts
length-add_parts c txn [] batch batch' e = ap length (sym (some_inj e))
length-add_parts c txn (p ∷ ps) batch batch' e =
    let (batch₁, first, rest) =
      >>=-eq-some (add_part p (generate_partitioned_txn c.compute_partition txn p) batch) _ e in
    length-add_parts c txn ps batch₁ batch' rest
    ∙ length-add_part p (generate_partitioned_txn c.compute_partition txn p) batch batch₁ first

pub on_back-IsWhole :
    (c : Settings) (f : PartitionedBatch → Option PartitionedBatch) (bs bs' : List PartitionedBatch)
    → ((b b' : PartitionedBatch) → f b ≡ some b' → length b' ≡ length b)
    → on_back f bs ≡ some bs'
    → All (IsWhole c) bs
    → All (IsWhole c) bs' × (length bs' ≡ length bs)
unfolding on_back
on_back-IsWhole c f [] bs' same e whole = absurd (ground arith)
on_back-IsWhole c f (b ∷ []) bs' same e whole =
    let (b', changed, rest) = >>=-eq-some (f b) _ e in
    (
      subst (All (IsWhole c)) (some_inj rest) (same b b' changed ∙ whole.0, tt),
      ap length (sym (some_inj rest)),
    )
on_back-IsWhole c f (b ∷ b₁ ∷ bs) bs' same e whole =
    let (bs₁, changed, rest) = >>=-eq-some (on_back f (b₁ ∷ bs)) _ e in
    let (more, long) = on_back-IsWhole c f (b₁ ∷ bs) bs₁ same changed whole.1 in
    (
      subst (All (IsWhole c)) (some_inj rest) (whole.0, more),
      ap length (sym (some_inj rest)) ∙ omega (arith, long),
    )
