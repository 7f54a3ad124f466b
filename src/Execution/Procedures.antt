-- ===== src/Execution/Procedures.antt =====
-- What the procedures of a transaction do: the comparisons decide, and only values to write change.
use slog.Base.{
  ℕ, ◌≡◌, refl, sym, ap, ap₂, subst, ◌∙◌, Bool, false, none, some, List, [], ◌∷◌, list_eq, lookup,
  bytes_Eq, if◌then◌else◌, arith, Bool-cases, inl, inr, >>=-eq-some, elem,
}
use slog.Txn.{KeyValueEntry, Transaction, TransactionStatus}
use slog.Storage.{Table}
use slog.Execution.{
  Running, set_word, del_word, copy_word, eq_word, sleep_word, run_procedure, run_procedures,
  procedures, execute, apply_writes,
}
use slog.Execution.Writes.{last_write, lookup-apply_writes}
use slog.Execution.Index.{SameKeys, mismatched, any_mismatched, SameKeys-refl, index_of}
use slog.Execution.Branches.{
  Kept, unchanged, run_set-Kept, run_copy-Kept, run_del-Kept, run_sleep-Kept, run_eq-Kept,
  not_compared, other_word,
}

module _ (is_number : List ℕ → Bool) where
  run_procedure-Kept :
      (keys : List KeyValueEntry) (p : List (List ℕ)) (s s' : Running)
      → run_procedure is_number (index_of keys) p s ≡ some s'
      → SameKeys keys s.keys
      → Kept keys s s' (mismatched keys p)
  unfolding run_procedure
  run_procedure-Kept keys [] s s' e h = unchanged keys s s' (ground arith)
  run_procedure-Kept keys (word ∷ args) s s' e h = elim (Bool-cases (list_eq word eq_word)) [
    | inl w ↦
        run_eq-Kept keys word args s s'
          (ground (
            arith,
            other_word eq_word set_word word w refl,
            other_word eq_word del_word word w refl,
            other_word eq_word copy_word word w refl,
          ))
          h w
    | inr n ↦
        subst (Kept keys s s') {x = false} (sym (not_compared keys word args n))
          (elim (Bool-cases (list_eq word set_word)) [
            | inl w ↦ run_set-Kept keys (index_of keys) (word ∷ args) s s' (ground arith)
            | inr n₁ ↦ elim (Bool-cases (list_eq word del_word)) [
              | inl w ↦ run_del-Kept keys (index_of keys) (word ∷ args) s s' (ground arith)
              | inr n₂ ↦ elim (Bool-cases (list_eq word copy_word)) [
                | inl w ↦ run_copy-Kept keys (index_of keys) (word ∷ args) s s' (ground arith)
                | inr n₃ ↦ elim (Bool-cases (list_eq word sleep_word)) [
                  | inl w ↦ run_sleep-Kept is_number keys (word ∷ args) s s' (ground arith)
                  | inr n₄ ↦ unchanged keys s s' (ground arith)
                ]
              ]
            ]
          ])
  ]

  run_procedures-Kept :
      (keys : List KeyValueEntry) (ps : List (List (List ℕ))) (s s' : Running)
      → run_procedures is_number (index_of keys) ps s ≡ some s'
      → SameKeys keys s.keys
      → Kept keys s s' (any_mismatched keys ps)
  unfolding run_procedures
  run_procedures-Kept keys [] s s' e h = unchanged keys s s' (ground arith)
  run_procedures-Kept keys (p ∷ ps) s s' e h =
      let (s₁, first, rest) =
        >>=-eq-some (run_procedure is_number (index_of keys) p s)
          (run_procedures is_number (index_of keys) ps) e in
      let one = run_procedure-Kept keys p s s₁ first h in
      let more = run_procedures-Kept keys ps s₁ s' rest (one.same h) in
      record {
        same = λ h'. more.same (one.same h');
        deleted = more.deleted ∙ one.deleted;
        aborted = ground (arith, more.aborted, one.aborted);
      }

-- Where an execution returns, the transaction is ABORTED if one of its procedures compares a key
-- with a value that it does not have, and else COMMITTED; its keys are those it had, with new values
-- in entries to write at most, and no key is added to those to delete. An abort leaves the storage
-- as it is; after a commit each key has what the last write of it, if it is local, says.
pub execute_lem :
    (is_local_key is_number : List ℕ → Bool) (txn txn' : Transaction) (storage storage' : Table)
    → execute is_local_key is_number txn storage ≡ some (txn', storage')
    → let aborts = any_mismatched txn.keys (procedures txn.program) in
      (txn'.status ≡ (if aborts then TransactionStatus.aborted else TransactionStatus.committed))
      × SameKeys txn.keys txn'.keys
      × (txn'.deleted_keys ≡ txn.deleted_keys)
      × ((k : List ℕ)
          → lookup k storage' ≡ (
              if aborts
              then lookup k storage
              else if elem k txn.deleted_keys
              then none
              else last_write is_local_key k txn'.keys (lookup k storage)))
unfolding execute
execute_lem is_local_key is_number txn txn' storage storage' e =
    let start : Running = record {
      keys = txn.keys;
      deleted_keys = txn.deleted_keys;
      aborted = false;
      abort_reason = [];
    } in
    let (s, ran, rest) =
      >>=-eq-some (run_procedures is_number (index_of txn.keys) (procedures txn.program) start) _
        e in
    let kept =
      run_procedures-Kept is_number txn.keys (procedures txn.program) start s ran
        (SameKeys-refl txn.keys) in
    let ks : s.keys ≡ txn'.keys = ground arith in
    let ds : s.deleted_keys ≡ txn'.deleted_keys = ground arith in
    let run : Transaction = record txn {
      keys = s.keys;
      deleted_keys = s.deleted_keys;
      status = TransactionStatus.committed;
    } in
    (
      ground (arith, kept.aborted),
      subst (SameKeys txn.keys) ks (kept.same (SameKeys-refl txn.keys)),
      sym ds ∙ kept.deleted,
      λ k. elim (Bool-cases s.aborted) [
        | inl a ↦ ground (arith, kept.aborted)
        | inr c ↦
            (let applied : apply_writes is_local_key run storage ≡ storage' = ground arith in
              let no_mismatch : any_mismatched txn.keys (procedures txn.program) ≡ false =
                ground (arith, kept.aborted) in
              rw no_mismatch (
                sym (ap (lookup k) applied)
                ∙ lookup-apply_writes is_local_key run storage k
                ∙ ap₂
                    (λ d x.
                      if elem k d then none else last_write is_local_key k x (lookup k storage))
                    kept.deleted ks))
      ],
    )
