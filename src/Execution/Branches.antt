-- ===== src/Execution/Branches.antt =====
-- What each kind of procedure does.
use slog.Base.{
  ℕ, ◌≡◌, refl, ap, subst, ◌∙◌, Bool, true, false, not, ◌||◌, some, List, [], ◌∷◌, list_eq,
  get_elem?, Map, lookup, bytes_Eq, arith, Bool-cases, Option-cases, inl, inr, >>=-eq-some,
}
use slog.Txn.{KeyValueEntry}
use slog.ProtoUtils.Partition.{is_write}
use slog.Execution.{
  Running, set_new_value, set_at, copy_between, compare_at, eq_word, run_set, run_del, run_copy,
  run_eq, run_sleep,
}
use slog.Execution.Index.{
  SameKeys, mismatched, set_new_value-SameKeys, get_elem?-SameKeys, indexed_some, indexed_none,
  index_of,
}

-- Where the loop over the procedures stands, against the keys that it began with.
pub record Kept (keys : List KeyValueEntry) (s s' : Running) (mismatch : Bool) : Type 0 where
  pub same : SameKeys keys s.keys → SameKeys keys s'.keys
  pub deleted : s'.deleted_keys ≡ s.deleted_keys
  pub aborted : s'.aborted ≡ (s.aborted || mismatch)

pub unchanged : (keys : List KeyValueEntry) (s s' : Running) → s ≡ s' → Kept keys s s' false
unchanged keys s s' e =
    subst (λ x. Kept keys s x false) e
      (record { same = λ h. h; deleted = refl; aborted = ground arith })

pub set_at-Kept :
    (keys : List KeyValueEntry) (args : List (List ℕ)) (s s' : Running) (i : ℕ)
    → set_at args s i ≡ some s'
    → Kept keys s s' false
set_at-Kept keys args s s' i e =
    let (kv, there, rest) = >>=-eq-some (get_elem? s.keys i) _ e in
    elim (Bool-cases (is_write kv.value_entry.type)) [
      | inl w ↦ elim (Option-cases (get_elem? args 2)) [
        | inl gone ↦ absurd (ground arith)
        | inr (value, got) ↦
            (let to : record s { keys = set_new_value i value s.keys } ≡ s' = ground arith in
              subst (λ x. Kept keys s x false) to
                (record {
                  same = λ h. set_new_value-SameKeys i value keys s.keys kv h there w;
                  deleted = refl;
                  aborted = ground arith;
                }))
      ]
      | inr r ↦ unchanged keys s s' (ground arith)
    ]

pub copy_between-Kept :
    (keys : List KeyValueEntry) (src dst : ℕ) (s s' : Running)
    → copy_between src dst s ≡ some s'
    → Kept keys s s' false
copy_between-Kept keys src dst s s' e =
    let (from, there, rest) = >>=-eq-some (get_elem? s.keys src) _ e in
    let (to, there', rest') = >>=-eq-some (get_elem? s.keys dst) _ rest in
    elim (Bool-cases (is_write to.value_entry.type)) [
      | inl w ↦
          (let value = from.value_entry.value in
            let is : record s { keys = set_new_value dst value s.keys } ≡ s' = ground arith in
            subst (λ x. Kept keys s x false) is
              (record {
                same = λ h. set_new_value-SameKeys dst value keys s.keys to h there' w;
                deleted = refl;
                aborted = ground arith;
              }))
      | inr r ↦ unchanged keys s s' (ground arith)
    ]

pub run_set-Kept :
    (keys : List KeyValueEntry) (index : Map (List ℕ) ℕ) (args : List (List ℕ)) (s s' : Running)
    → run_set index args s ≡ some s'
    → Kept keys s s' false
unfolding run_set
run_set-Kept keys index args s s' e =
    let (key, got, rest) = >>=-eq-some (get_elem? args 1) _ e in
    elim (Option-cases (lookup key index)) [
      | inl gone ↦ unchanged keys s s' (ground arith)
      | inr (i, found) ↦ set_at-Kept keys args s s' i (ground arith)
    ]

pub run_copy-Kept :
    (keys : List KeyValueEntry) (index : Map (List ℕ) ℕ) (args : List (List ℕ)) (s s' : Running)
    → run_copy index args s ≡ some s'
    → Kept keys s s' false
unfolding run_copy
run_copy-Kept keys index args s s' e =
    let (src, got, rest) = >>=-eq-some (get_elem? args 1) _ e in
    let (dst, got', rest') = >>=-eq-some (get_elem? args 2) _ rest in
    elim (Option-cases (lookup src index)) [
      | inl gone ↦ unchanged keys s s' (ground arith)
      | inr (i, found) ↦ elim (Option-cases (lookup dst index)) [
        | inl gone ↦ unchanged keys s s' (ground arith)
        | inr (j, found') ↦ copy_between-Kept keys i j s s' (ground arith)
      ]
    ]

pub run_del-Kept :
    (keys : List KeyValueEntry) (index : Map (List ℕ) ℕ) (args : List (List ℕ)) (s s' : Running)
    → run_del index args s ≡ some s'
    → Kept keys s s' false
unfolding run_del
run_del-Kept keys index args s s' e =
    let (key, got, rest) = >>=-eq-some (get_elem? args 1) _ e in unchanged keys s s' (ground arith)

pub run_sleep-Kept :
    (is_number : List ℕ → Bool) (keys : List KeyValueEntry) (args : List (List ℕ)) (s s' : Running)
    → run_sleep is_number args s ≡ some s'
    → Kept keys s s' false
unfolding run_sleep
run_sleep-Kept is_number keys args s s' e =
    let (ms, got, rest) = >>=-eq-some (get_elem? args 1) _ e in unchanged keys s s' (ground arith)

pub compare_at-Kept :
    (keys : List KeyValueEntry) (key wanted : List ℕ) (args : List (List ℕ)) (kv : KeyValueEntry)
    (i : ℕ) (s s' : Running)
    → compare_at key args i s ≡ some s'
    → get_elem? s.keys i ≡ some kv
    → get_elem? args 2 ≡ some wanted
    → Kept keys s s' (not (list_eq kv.value_entry.value wanted))
compare_at-Kept keys key wanted args kv i s s' e there got =
    elim (Bool-cases (list_eq kv.value_entry.value wanted)) [
      | inl same ↦
          subst (Kept keys s s') {x = false} (ground arith) (unchanged keys s s' (ground arith))
      | inr differ ↦ record {
        same = λ h. subst (SameKeys keys) {x = s.keys} (ground arith) h;
        deleted = ground arith;
        aborted = ground arith;
      }
    ]

pub run_eq-Kept :
    (keys : List KeyValueEntry) (word : List ℕ) (args : List (List ℕ)) (s s' : Running)
    → run_eq (index_of keys) (word ∷ args) s ≡ some s'
    → SameKeys keys s.keys
    → list_eq word eq_word ≡ true
    → Kept keys s s' (mismatched keys (word ∷ args))
unfolding run_eq
run_eq-Kept keys word [] s s' e h w = absurd (ground arith)
run_eq-Kept keys word (key ∷ []) s s' e h w = elim (Option-cases (lookup key (index_of keys))) [
  | inl gone ↦ unchanged keys s s' (ground arith)
  | inr (i, found) ↦
      (let at : compare_at key (word ∷ key ∷ []) i s ≡ some s' = ground arith in
        let (kv, there, rest) = >>=-eq-some (get_elem? s.keys i) _ at in absurd (ground arith))
]
run_eq-Kept keys word (key ∷ wanted ∷ args) s s' e h w =
    elim (Option-cases (lookup key (index_of keys))) [
      | inl gone ↦
          subst (Kept keys s s') {x = false} (ground (arith, indexed_none key keys gone))
            (unchanged keys s s' (ground arith))
      | inr (i, found) ↦
          (let at : compare_at key (word ∷ key ∷ wanted ∷ args) i s ≡ some s' = ground arith in
            let (kv, there, rest) = >>=-eq-some (get_elem? s.keys i) _ at in
            let (a, there₀, found₀) = indexed_some key i keys found in
            let same = get_elem?-SameKeys i keys s.keys a kv h there₀ there in
            let eq : list_eq kv.value_entry.value wanted ≡ list_eq a.value_entry.value wanted =
              ap (λ v. list_eq v wanted) same.value in
            subst (Kept keys s s') {x = not (list_eq kv.value_entry.value wanted)}
              (ground (arith, eq, found₀))
              (compare_at-Kept keys key wanted (word ∷ key ∷ wanted ∷ args) kv i s s' at there
                refl))
    ]

pub not_compared :
    (keys : List KeyValueEntry) (word : List ℕ) (args : List (List ℕ))
    → list_eq word eq_word ≡ false
    → mismatched keys (word ∷ args) ≡ false
not_compared keys word [] h = refl
not_compared keys word (key ∷ []) h = refl
not_compared keys word (key ∷ wanted ∷ args) h = ground arith

pub other_word :
    (u v word : List ℕ) → list_eq word u ≡ true → list_eq u v ≡ false → list_eq word v ≡ false
other_word u v word h n = ap (λ x. list_eq x v) ((bytes_Eq.same_iff word u).0 h) ∙ n
