-- ===== src/Runtime/Session/Update/Settles.antt =====
-- What update() leaves of the managed groups.
use nekomata.Base.{
  ◌≡◌, refl, ◌∙◌, subst, Bool, true, false, List, [], ◌∷◌, Option, none, some, Result, ok, err,
  Bool-cases, inl, inr,
}
use nekomata.Text.{Bytes}
use nekomata.Protocol.Scanner.{is_empty}
use nekomata.Runtime.Backend.{Substituter, Loader}
use nekomata.Runtime.Generation.{
  Failure, runtime_error, fatal_reload_error, PreparedGeneration, Ledger,
}
use nekomata.Runtime.Transaction.{commit}
use nekomata.Runtime.Session.{UpdateEvent, ManagedGroup}
use nekomata.Runtime.Session.Worker.Exclusive.{IsExclusive, AreExclusive}
use nekomata.Runtime.Session.Update.Tells.{AllTell, update_groups-AllTell}
use nekomata.Runtime.Session.Update.{
  after_commit, report_rejection, update_enabled, update_group, add_group, update_groups,
}

module _ {L : Type 0} where
  -- A disabled group is as it was; an enabled one keeps its stream, and has no outcome left to report.
  abbrev pub IsSettled : ManagedGroup L → ManagedGroup L → Type 0
  IsSettled g g' =
      (g.enabled ≡ false → g' ≡ g)
      × (g.enabled ≡ true
          → (g'.prepared ≡ none)
            × (g'.pending_rejection ≡ [])
            × (g'.stream ≡ g.stream)
            × (g'.descriptor ≡ g.descriptor)
            × (g'.enabled ≡ true))

  abbrev pub AreSettled : List (ManagedGroup L) → List (ManagedGroup L) → Type 0
  AreSettled [] [] = Unit {0}
  AreSettled [] (g' ∷ gs') = ⊥
  AreSettled (g ∷ gs) [] = ⊥
  AreSettled (g ∷ gs) (g' ∷ gs') = IsSettled g g' × AreSettled gs gs'

module _ (sub : Substituter) (loader : Loader sub) where
  open sub use {Process}
  open loader use {Linkage}

  IfSettled :
      ManagedGroup Linkage → ManagedGroup Linkage → Result Failure (List UpdateEvent) → Type 0
  IfSettled g g' (err e) = Unit {0}
  IfSettled g g' (ok events) =
      (g'.prepared ≡ none)
      × (g'.pending_rejection ≡ [])
      × (g'.stream ≡ g.stream)
      × (g'.descriptor ≡ g.descriptor)
      × (g'.enabled ≡ g.enabled)

  after_commit-IfSettled :
      (g : ManagedGroup Linkage) (generation : PreparedGeneration Linkage)
      (r : Process × Ledger × Result Failure (Unit {0}))
      → g.pending_rejection ≡ []
      → IfSettled g
          (after_commit sub loader g generation r).2
          (after_commit sub loader g generation r).3
  unfolding IfSettled after_commit
  after_commit-IfSettled g generation (p, s, ok _) quiet = (refl, quiet, refl, refl, refl)
  after_commit-IfSettled g generation (p, s, err (fatal_reload_error m)) quiet = tt
  after_commit-IfSettled g generation (p, s, err (runtime_error m)) quiet =
      (refl, quiet, refl, refl, refl)

  is_empty-nil : (s : Bytes) → is_empty s ≡ true → s ≡ []
  unfolding is_empty
  is_empty-nil [] e = refl
  is_empty-nil (c ∷ cs) e = cc

  report_rejection-IfSettled :
      (p : Process) (s : Ledger) (g : ManagedGroup Linkage)
      → g.prepared ≡ none
      → IfSettled g (report_rejection sub loader p s g).2 (report_rejection sub loader p s g).3
  unfolding IfSettled report_rejection
  report_rejection-IfSettled p s g nothing = go (is_empty g.pending_rejection) refl
    where
      go :
          (b : Bool)
          → is_empty g.pending_rejection ≡ b
          → IfSettled g (report_rejection sub loader p s g).2 (report_rejection sub loader p s g).3
      go true quiet = simp quiet (nothing, is_empty-nil g.pending_rejection quiet, refl, refl, refl)
      go false waiting = simp waiting (nothing, refl, refl, refl, refl)

  update_enabled-IfSettled :
      (p : Process) (s : Ledger) (g : ManagedGroup Linkage)
      (o : Option (PreparedGeneration Linkage))
      → g.prepared ≡ o
      → IsExclusive g
      → IfSettled g (update_enabled sub loader p s g o).2 (update_enabled sub loader p s g o).3
  unfolding update_enabled
  update_enabled-IfSettled p s g (some generation) e x =
      after_commit-IfSettled g generation (commit sub loader p generation s)
        (quiet g generation e x)
    where
      quiet :
          (g : ManagedGroup Linkage) (generation : PreparedGeneration Linkage)
          → g.prepared ≡ some generation
          → IsExclusive g
          → g.pending_rejection ≡ []
      quiet g generation e x =
          subst
            (λ (o : Option (PreparedGeneration Linkage)). elim o [
              | none ↦ Unit {0}
              | some _ ↦ g.pending_rejection ≡ []
            ])
            e x
  update_enabled-IfSettled p s g none e x = report_rejection-IfSettled p s g e

  GroupSettled :
      ManagedGroup Linkage → ManagedGroup Linkage → Result Failure (List UpdateEvent) → Type 0
  GroupSettled g g' (err e) = Unit {0}
  GroupSettled g g' (ok events) = IsSettled g g'

  enabled-GroupSettled :
      (g g' : ManagedGroup Linkage) (r : Result Failure (List UpdateEvent))
      → g.enabled ≡ true
      → IfSettled g g' r
      → GroupSettled g g' r
  unfolding IfSettled GroupSettled
  enabled-GroupSettled g g' (err e) on x = tt
  enabled-GroupSettled g g' (ok events) on (a, b, c, d, same) =
      (λ off. cc, λ _. (a, b, c, d, same ∙ on))

  update_group-GroupSettled :
      (p : Process) (s : Ledger) (g : ManagedGroup Linkage)
      → IsExclusive g
      → GroupSettled g (update_group sub loader p s g).2 (update_group sub loader p s g).3
  unfolding update_group
  update_group-GroupSettled p s g x = elim (Bool-cases g.enabled) [
    | inl on ↦
        simp on (enabled-GroupSettled g _ _ on (update_enabled-IfSettled p s g g.prepared refl x))
    | inr off ↦ simp off (unfold GroupSettled in (λ _. refl, λ on. cc))
  ]

  AllSettled :
      List (ManagedGroup Linkage)
      → List (ManagedGroup Linkage)
      → Result Failure (List UpdateEvent)
      → Type 0
  AllSettled gs gs' (err e) = Unit {0}
  AllSettled gs gs' (ok events) = AreSettled gs gs'

  add_group-AllSettled :
      (g : ManagedGroup Linkage) (gs : List (ManagedGroup Linkage))
      (first : Process × Ledger × ManagedGroup Linkage × Result Failure (List UpdateEvent))
      (later : Process × Ledger × List (ManagedGroup Linkage) × Result Failure (List UpdateEvent))
      → GroupSettled g first.2 first.3
      → AllSettled gs later.2 later.3
      → AllSettled
          (g ∷ gs)
          (add_group sub loader gs first later).2
          (add_group sub loader gs first later).3
  unfolding add_group AllSettled GroupSettled
  add_group-AllSettled g gs (p1, s1, g', err e) later a b = tt
  add_group-AllSettled g gs (p1, s1, g', ok events) (p2, s2, gs', err e) a b = tt
  add_group-AllSettled g gs (p1, s1, g', ok events) (p2, s2, gs', ok others) a b = (a, b)

  update_groups-AllSettled :
      (gs : List (ManagedGroup Linkage)) (p : Process) (s : Ledger)
      → AreExclusive gs
      → AllSettled gs (update_groups sub loader p s gs).2 (update_groups sub loader p s gs).3
  unfolding update_groups
  update_groups-AllSettled [] p s x = unfold AllSettled in tt
  update_groups-AllSettled (g ∷ gs) p s (x, xs) =
      let first = update_group sub loader p s g in
      add_group-AllSettled g gs first (update_groups sub loader first.0 first.1 gs)
        (update_group-GroupSettled p s g x) (update_groups-AllSettled gs first.0 first.1 xs)

  -- When the managed part of update() returns, no group is left out, whatever became of the others:
  -- each disabled group is as it was, and each enabled one has its prepared transaction and its
  -- rejection cleared. The events are those of each group, in the order of the groups: a prepared
  -- transaction has one event, with the ids of the group and of the generation, that is applied when
  -- the group now stands at that generation, and rejected when the group failed and still stands where
  -- it did; a rejection that waits has one rejected event with its message; any other group has none.
  -- No group may have both a transaction and a rejection before.
  pub update_groups-AreSettled :
      (gs gs' : List (ManagedGroup Linkage)) (p p' : Process) (s s' : Ledger)
      (events : List UpdateEvent)
      → AreExclusive gs
      → update_groups sub loader p s gs ≡ (p', s', gs', ok events)
      → AreSettled gs gs' × AllTell gs gs' events
  unfolding AllSettled
  update_groups-AreSettled gs gs' p p' s s' events x e = (
    subst
        (λ (r : Process × Ledger × List (ManagedGroup Linkage) × Result Failure (List UpdateEvent)).
          AllSettled gs r.2 r.3)
        e (update_groups-AllSettled gs p s x),
    update_groups-AllTell sub loader gs gs' p p' s s' events e,
  )
