-- ===== src/Scheduler/Releases.antt =====
-- What a release of locks and the dispatches after it do to a scheduler.
use slog.Base.{
  ℕ, ◌≡◌, refl, sym, ap, ◌∙◌, true, false, some, List, [], ◌∷◌, nat_eq, nat_Eq, elem, Map, lookup,
  insert, lookup-insert, arith, Bool-cases, inl, inr, some_inj,
}
use slog.TxnHolder.{TxnHolder, inc_num_dispatches}
use slog.Scheduler.{LockManager, check, Scheduler, dispatch, dispatch_all, release_and_dispatch}
use slog.Scheduler.Active.{Holds, Holds-bind, Holds-imp, Holds-check, Inv, Good, insert-Inv}

module _ {S : Type 0} (m : LockManager S) where
  -- Every holder of `a` is in `b`, and is aborting there exactly if it is in `a`.
  abbrev pub Kept : Map ℕ TxnHolder → Map ℕ TxnHolder → Type 0
  Kept a b =
      (j : ℕ) (h : TxnHolder)
      → lookup j a ≡ some h
      → (h' : TxnHolder) × (lookup j b ≡ some h') × (h'.aborting ≡ h.aborting)

  -- Transactions have been dispatched.
  pub record After (lm : S) (active : Map ℕ TxnHolder) (s : Scheduler S) : Type 0 where
    pub good : Good m s
    pub same : s.lock_manager ≡ lm
    pub kept : Kept active s.active_txns

  Kept-trans : (a b c : Map ℕ TxnHolder) → Kept a b → Kept b c → Kept a c
  Kept-trans a b c f g j h e =
      let (h₁, there₁, same₁) = f j h e in
      let (h₂, there₂, same₂) = g j h₁ there₁ in (h₂, there₂, same₂ ∙ same₁)

  pub insert-Kept :
      (t : ℕ) (h h' : TxnHolder) (active : Map ℕ TxnHolder)
      → lookup t active ≡ some h
      → h'.aborting ≡ h.aborting
      → Kept active (insert t h' active)
  insert-Kept t h h' active there same j k found = elim (Bool-cases (nat_eq t j)) [
    | inl here ↦ (
      h',
      lookup-insert t j h' active ∙ ground arith,
      same
          ∙ ap (λ x. x.aborting)
              (some_inj
                (sym there ∙ ap (λ x. lookup x active) ((nat_Eq.same_iff t j).0 here) ∙ found)),
    )
    | inr other ↦ (k, lookup-insert t j h' active ∙ ground arith, refl)
  ]

  pub dispatch-After :
      (t : ℕ) (s : Scheduler S) (h : TxnHolder)
      → Good m s
      → lookup t s.active_txns ≡ some h
      → Holds (After s.lock_manager s.active_txns) (dispatch m t s)
  unfolding dispatch
  dispatch-After t s h v there = rw there (record {
    good = insert-Inv m t h (inc_num_dispatches h) s.lock_manager s.active_txns v there refl;
    same = refl;
    kept = insert-Kept t h (inc_num_dispatches h) s.active_txns there refl;
  })

  dispatch_all-After :
      (ts : List ℕ) (s : Scheduler S)
      → Good m s
      → ((j : ℕ) → elem j ts ≡ true → (h : TxnHolder) × (lookup j s.active_txns ≡ some h))
      → Holds (After s.lock_manager s.active_txns) (dispatch_all m ts s)
  unfolding dispatch_all
  dispatch_all-After [] s v there = record { good = v; same = refl; kept = λ j h e. (h, e, refl) }
  dispatch_all-After (t ∷ ts) s v there =
      let (h, first) = there t (ground arith) in
      Holds-bind (After s.lock_manager s.active_txns) (After s.lock_manager s.active_txns)
        (dispatch m t s) (dispatch_all m ts) (dispatch-After t s h v first)
        (λ s₁ one. more s₁ one (
          dispatch_all-After ts s₁ one.good (λ j is.
            let (k, found) = there j (ground arith) in
            let (k', found', same) = one.kept j k found in (k', found'))))
    where
      more :
          (s₁ : Scheduler S)
          → After s.lock_manager s.active_txns s₁
          → Holds (After s₁.lock_manager s₁.active_txns) (dispatch_all m ts s₁)
          → Holds (After s.lock_manager s.active_txns) (dispatch_all m ts s₁)
      more s₁ one =
          Holds-imp (After s₁.lock_manager s₁.active_txns) (After s.lock_manager s.active_txns)
            (dispatch_all m ts s₁)
            (λ s₂ two. record {
              good = two.good;
              same = two.same ∙ one.same;
              kept = Kept-trans s.active_txns s₁.active_txns s₂.active_txns one.kept two.kept;
            })

  -- Before a release of the locks of a transaction, which may be aborting.
  pub record Before (t : ℕ) (lm : S) (active : Map ℕ TxnHolder) : Type 0 where
    pub known : (j : ℕ) → m.tracks j lm ≡ true → (h : TxnHolder) × (lookup j active ≡ some h)
    pub aborting :
        (j : ℕ) (h : TxnHolder)
        → lookup j active ≡ some h
        → h.aborting ≡ true
        → nat_eq t j ≡ false
        → m.tracks j lm ≡ false

  pub record Released (t : ℕ) (active : Map ℕ TxnHolder) (s : Scheduler S) : Type 0 where
    pub good : Good m s
    pub untracked : m.tracks t s.lock_manager ≡ false
    pub kept : Kept active s.active_txns

  release-Inv :
      (t : ℕ) (lm lm' : S) (ready : List ℕ) (active : Map ℕ TxnHolder)
      → Before t lm active
      → m.release t lm ≡ some (lm', ready)
      → Inv m lm' active × (m.tracks t lm' ≡ false)
  release-Inv t lm lm' ready active v e = (
    record {
      known = λ j tracked. v.known j (ground (arith, m.release-tracks t lm lm' ready j e tracked));
      aborting = λ j h there aborts. elim (Bool-cases (m.tracks j lm')) [
        | inl tracked ↦
            (let both = m.release-tracks t lm lm' ready j e tracked in
              absurd (ground (arith, both, v.aborting j h there aborts)))
        | inr free ↦ free
      ];
    },
    elim (Bool-cases (m.tracks t lm')) [
      | inl tracked ↦ absurd (ground (arith, m.release-tracks t lm lm' ready t e tracked))
      | inr free ↦ free
    ],
  )

  pub release_and_dispatch-Released :
      (t : ℕ) (s : Scheduler S)
      → Before t s.lock_manager s.active_txns
      → Holds (Released t s.active_txns) (release_and_dispatch m t s)
  unfolding release_and_dispatch
  release_and_dispatch-Released t s v =
      Holds-bind (λ r. m.release t s.lock_manager ≡ some r) (Released t s.active_txns)
        (check (m.release t s.lock_manager)) _ (Holds-check (m.release t s.lock_manager))
        (λ (r : S × List ℕ) e.
          (let (inv, untracked) = release-Inv t s.lock_manager r.0 r.1 s.active_txns v e in
            Holds-imp (After r.0 s.active_txns) (Released t s.active_txns)
              (dispatch_all m r.1 (record s { lock_manager = r.0 }))
              (λ s' after. record {
                good = after.good;
                untracked = ap (m.tracks t) after.same ∙ untracked;
                kept = after.kept;
              })
              (dispatch_all-After r.1 (record s { lock_manager = r.0 }) inv
                (λ j is. v.known j (m.release-ready t s.lock_manager r.0 r.1 j e is)))))
