-- ===== src/Runtime/Session/Update/Tells.antt =====
-- The events of update() for the managed groups, one group after the other.
use nekomata.Base.{
  ◌≡◌, refl, subst, Bool, true, false, List, [], ◌∷◌, ◌++◌, Option, none, some, Result, ok, err,
  Bool-cases, inl, inr, ◌⊎◌, ◌≢◌,
}
use nekomata.Text.{Bytes}
use nekomata.Protocol.Scanner.{is_empty}
use nekomata.Runtime.Backend.{Substituter, Loader}
use nekomata.Runtime.Generation.{
  Failure, runtime_error, fatal_reload_error, PreparedGeneration, Ledger,
}
use nekomata.Runtime.Transaction.{commit}
use nekomata.Runtime.Session.{UpdateEvent, applied, rejected, ManagedGroup}
use nekomata.Runtime.Session.Update.{
  after_commit, report_rejection, update_enabled, update_group, add_group, update_groups,
}

module _ {L : Type 0} where
  -- An event names a group and a generation.
  abbrev pub Names : UpdateEvent → ManagedGroup L → Bytes → Type 0
  Names e g generation_id = (e.group_id ≡ g.descriptor.group_id) × (e.generation_id ≡ generation_id)

  -- The event of a transaction says whether the group now stands at its generation.
  abbrev pub Concludes : UpdateEvent → ManagedGroup L → ManagedGroup L → Bytes → Type 0
  Concludes e g g' generation_id =
      ((e.status ≡ applied) × (g'.last_applied_generation ≡ generation_id) × (g'.failed ≡ false))
      ⊎ ((e.status ≡ rejected)
          × (g'.last_applied_generation ≡ g.last_applied_generation)
          × (g'.failed ≡ true))

  -- The events that the change of a group from `g` to `g'` owes.
  pub data Tells (g g' : ManagedGroup L) : List UpdateEvent → Type 0 where
    disabled : g.enabled ≡ false → Tells g g' []
    idle : g.enabled ≡ true → g.prepared ≡ none → g.pending_rejection ≡ [] → Tells g g' []
    transaction :
        (e : UpdateEvent) (generation : PreparedGeneration L)
        → g.enabled ≡ true
        → g.prepared ≡ some generation
        → Names e g generation.id
        → Concludes e g g' generation.id
        → Tells g g' (e ∷ [])
    refusal :
        (e : UpdateEvent)
        → g.enabled ≡ true
        → g.prepared ≡ none
        → g.pending_rejection ≢ []
        → Names e g g.pending_rejection_id
        → e.status ≡ rejected
        → e.message ≡ g.pending_rejection
        → Tells g g' (e ∷ [])

  -- The events of a list of groups are those of each, in the order of the groups.
  pub data AllTell : List (ManagedGroup L) → List (ManagedGroup L) → List UpdateEvent → Type 0 where
    none_left : AllTell [] [] []
    one_more :
        {g g' : ManagedGroup L} {gs gs' : List (ManagedGroup L)} {es others : List UpdateEvent}
        → Tells g g' es
        → AllTell gs gs' others
        → AllTell (g ∷ gs) (g' ∷ gs') (es ++ others)

module _ (sub : Substituter) (loader : Loader sub) where
  open sub use {Process}
  open loader use {Linkage}

  IfTells : ManagedGroup Linkage → ManagedGroup Linkage → Result Failure (List UpdateEvent) → Type 0
  IfTells g g' (err e) = Unit {0}
  IfTells g g' (ok events) = Tells g g' events

  after_commit-IfTells :
      (g : ManagedGroup Linkage) (generation : PreparedGeneration Linkage)
      (r : Process × Ledger × Result Failure (Unit {0}))
      → g.enabled ≡ true
      → g.prepared ≡ some generation
      → IfTells g
          (after_commit sub loader g generation r).2
          (after_commit sub loader g generation r).3
  unfolding IfTells after_commit
  after_commit-IfTells g generation (p, s, ok _) on here =
      Tells.transaction _ generation on here (refl, refl) (inl (refl, refl, refl))
  after_commit-IfTells g generation (p, s, err (fatal_reload_error m)) on here = tt
  after_commit-IfTells g generation (p, s, err (runtime_error m)) on here =
      Tells.transaction _ generation on here (refl, refl) (inr (refl, refl, refl))

  is_empty-nil : (s : Bytes) → is_empty s ≡ true → s ≡ []
  unfolding is_empty
  is_empty-nil [] e = refl
  is_empty-nil (c ∷ cs) e = cc

  is_empty-other : (s : Bytes) → is_empty s ≡ false → s ≢ []
  unfolding is_empty
  is_empty-other [] e = cc
  is_empty-other (c ∷ cs) e = λ same. cc

  report_rejection-IfTells :
      (p : Process) (s : Ledger) (g : ManagedGroup Linkage)
      → g.enabled ≡ true
      → g.prepared ≡ none
      → IfTells g (report_rejection sub loader p s g).2 (report_rejection sub loader p s g).3
  unfolding IfTells report_rejection
  report_rejection-IfTells p s g on nothing = go (is_empty g.pending_rejection) refl
    where
      go :
          (b : Bool)
          → is_empty g.pending_rejection ≡ b
          → IfTells g (report_rejection sub loader p s g).2 (report_rejection sub loader p s g).3
      go true quiet = simp quiet (Tells.idle on nothing (is_empty-nil g.pending_rejection quiet))
      go false waiting = simp waiting (
          Tells.refusal _ on nothing (is_empty-other g.pending_rejection waiting) (refl, refl) refl
            refl)

  update_enabled-IfTells :
      (p : Process) (s : Ledger) (g : ManagedGroup Linkage)
      (o : Option (PreparedGeneration Linkage))
      → g.enabled ≡ true
      → g.prepared ≡ o
      → IfTells g (update_enabled sub loader p s g o).2 (update_enabled sub loader p s g o).3
  unfolding update_enabled
  update_enabled-IfTells p s g (some generation) on here =
      after_commit-IfTells g generation (commit sub loader p generation s) on here
  update_enabled-IfTells p s g none on here = report_rejection-IfTells p s g on here

  update_group-IfTells :
      (p : Process) (s : Ledger) (g : ManagedGroup Linkage)
      → IfTells g (update_group sub loader p s g).2 (update_group sub loader p s g).3
  unfolding update_group
  update_group-IfTells p s g = elim (Bool-cases g.enabled) [
    | inl on ↦ simp on (update_enabled-IfTells p s g g.prepared on refl)
    | inr off ↦ simp off (unfold IfTells in Tells.disabled off)
  ]

  abbrev IfAllTell :
      List (ManagedGroup Linkage)
      → List (ManagedGroup Linkage)
      → Result Failure (List UpdateEvent)
      → Type 0
  IfAllTell gs gs' (err e) = Unit {0}
  IfAllTell gs gs' (ok events) = AllTell gs gs' events

  add_group-IfAllTell :
      (g : ManagedGroup Linkage) (gs : List (ManagedGroup Linkage))
      (first : Process × Ledger × ManagedGroup Linkage × Result Failure (List UpdateEvent))
      (later : Process × Ledger × List (ManagedGroup Linkage) × Result Failure (List UpdateEvent))
      → IfTells g first.2 first.3
      → IfAllTell gs later.2 later.3
      → IfAllTell
          (g ∷ gs)
          (add_group sub loader gs first later).2
          (add_group sub loader gs first later).3
  unfolding add_group IfTells
  add_group-IfAllTell g gs (p1, s1, g', err e) later a b = tt
  add_group-IfAllTell g gs (p1, s1, g', ok events) (p2, s2, gs', err e) a b = tt
  add_group-IfAllTell g gs (p1, s1, g', ok events) (p2, s2, gs', ok others) a b =
      AllTell.one_more a b

  update_groups-IfAllTell :
      (gs : List (ManagedGroup Linkage)) (p : Process) (s : Ledger)
      → IfAllTell gs (update_groups sub loader p s gs).2 (update_groups sub loader p s gs).3
  unfolding update_groups
  update_groups-IfAllTell [] p s = AllTell.none_left
  update_groups-IfAllTell (g ∷ gs) p s =
      let first = update_group sub loader p s g in
      add_group-IfAllTell g gs first (update_groups sub loader first.0 first.1 gs)
        (update_group-IfTells p s g) (update_groups-IfAllTell gs first.0 first.1)

  pub update_groups-AllTell :
      (gs gs' : List (ManagedGroup Linkage)) (p p' : Process) (s s' : Ledger)
      (events : List UpdateEvent)
      → update_groups sub loader p s gs ≡ (p', s', gs', ok events)
      → AllTell gs gs' events
  update_groups-AllTell gs gs' p p' s s' events e =
      subst
        (λ (r : Process × Ledger × List (ManagedGroup Linkage) × Result Failure (List UpdateEvent)).
          IfAllTell gs r.2 r.3)
        e (update_groups-IfAllTell gs p s)
