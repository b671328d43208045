-- ===== src/Runtime/Session/Update/Totals.antt =====
-- The counters over a whole call of update().
use nekomata.Base.{ℕ, ◌+◌, ◌≡◌, refl, ap, ◌∙◌, subst, List, [], ◌∷◌, arith, Result, ok, err}
use nekomata.Runtime.Backend.{Substituter, Loader}
use nekomata.Runtime.Generation.{
  Failure, runtime_error, fatal_reload_error, PreparedReload, PreparedGeneration, Ledger,
  validate_generation,
}
use nekomata.Runtime.Transaction.{commit}
use nekomata.Runtime.Transaction.Commit.{Ends, commit-Ends}
use nekomata.Runtime.Stream.{FileSystem}
use nekomata.Runtime.Session.{UpdateEvent, ManagedGroup, Session, SessionError, check_fatal_error}
use nekomata.Runtime.Session.Update.Counts.{
  applied_events, rejected_events, Counted, Counted-then, publish-counts, update_groups-Counted,
}
use nekomata.Runtime.Session.Update.{
  committed_objects, update_groups, commit_objects, objects_prepared, report_objects,
  prepare_watched, update_objects, after_groups, update, update_checked, validated_objects,
  conclude_update, update_checked,
}

module _ (sub : Substituter) (loader : Loader sub) where
  open sub use {Process}
  open loader use {Linkage}

  -- Before its handler, the watched objects' transaction counted its events, or threw an ordinary
  -- error and left the ledger alone.
  Attempted : Ledger → Ledger → Result Failure (List UpdateEvent) → Type 0
  Attempted s s' (ok events) = Counted s s' (ok events)
  Attempted s s' (err (runtime_error message)) = s' ≡ s
  Attempted s s' (err (fatal_reload_error message)) = Unit {0}

  -- The events of a call that returns are counted.
  abbrev pub Totals : Ledger → Ledger → Result Failure (List UpdateEvent) → Type 0
  Totals s s' (ok events) = Counted s s' (ok events)
  Totals s s' (err e) = Unit {0}

  report_objects-Totals :
      (s : Ledger) (r : Process × Ledger × Result Failure (List UpdateEvent))
      → Attempted s r.1 r.2
      → Totals s (report_objects sub loader r).1 (report_objects sub loader r).2
  unfolding report_objects Attempted
  report_objects-Totals s (p, s', ok events) counted = counted
  report_objects-Totals s (p, s', err (fatal_reload_error message)) counted = tt
  report_objects-Totals s (p, s', err (runtime_error message)) same = (
    omega (arith, ap (λ (l : Ledger). l.applied) same),
    omega (arith, ap (λ (l : Ledger). l.rejected) same),
  )

  unchanged : (p : Process) (s : Ledger) (e : Failure) → Attempted s s (err e)
  unfolding Attempted
  unchanged p s (runtime_error message) = refl
  unchanged p s (fatal_reload_error message) = tt

  committed_objects-Attempted :
      (p : Process) (g : PreparedGeneration Linkage) (s : Ledger)
      (r : Process × Ledger × Result Failure (Unit {0}))
      → Ends sub loader p g s r
      → Attempted s (committed_objects sub loader g r).1 (committed_objects sub loader g r).2
  unfolding committed_objects Attempted Ends
  committed_objects-Attempted p g s (q, s', ok _) same =
      let (a, r) = publish-counts s g in
      (
        ap (λ (l : Ledger). l.applied) same ∙ a,
        omega (arith, ap (λ (l : Ledger). l.rejected) same, r),
      )
  committed_objects-Attempted p g s (q, s', err (runtime_error message)) (keep, same) = same
  committed_objects-Attempted p g s (q, s', err (fatal_reload_error message)) ends = tt

  commit_objects-Attempted :
      (s : Ledger) (r : Process × Result Failure (PreparedGeneration Linkage))
      → Attempted s (commit_objects sub loader s r).1 (commit_objects sub loader s r).2
  unfolding commit_objects
  commit_objects-Attempted s (p, err e) = unchanged p s e
  commit_objects-Attempted s (p, ok g) = validated p g s (validate_generation g)
    where
      validated :
          (p : Process) (g : PreparedGeneration Linkage) (s : Ledger)
          (v : Result Failure (Unit {0}))
          → Attempted s
              (validated_objects sub loader p s g v).1
              (validated_objects sub loader p s g v).2
      validated p g s (err e) = unfold validated_objects in unchanged p s e
      validated p g s (ok _) =
          unfold validated_objects in
          committed_objects-Attempted p g s (commit sub loader p g s) (commit-Ends sub loader p g s)

  objects_prepared-Attempted :
      (s : Ledger) (r : Process × Result Failure (List (PreparedReload Linkage)))
      → Attempted s (objects_prepared sub loader s r).1 (objects_prepared sub loader s r).2
  unfolding objects_prepared Attempted
  objects_prepared-Attempted s (p, err (runtime_error m)) = refl
  objects_prepared-Attempted s (p, err (fatal_reload_error m)) = tt
  objects_prepared-Attempted s (p, ok []) = (omega arith, omega arith)
  objects_prepared-Attempted s (p, ok (r ∷ rs)) = commit_objects-Attempted s _

  SessionTotals :
      Session Linkage → Process × Session Linkage × Result SessionError (List UpdateEvent) → Type 0
  SessionTotals s (p, s', ok events) = Counted s.ledger s'.ledger (ok events)
  SessionTotals s (p, s', err e) = Unit {0}

  conclude_update-Totals :
      (s : Session Linkage) (l : Ledger) (groups : List (ManagedGroup Linkage))
      (events : List UpdateEvent) (r : Process × Ledger × Result Failure (List UpdateEvent))
      → Counted s.ledger l (ok events)
      → Totals l r.1 r.2
      → SessionTotals s (conclude_update sub loader s groups events r)
  unfolding SessionTotals conclude_update
  conclude_update-Totals s l groups events (p, l', err e) c t = tt
  conclude_update-Totals s l groups events (p, l', ok others) c t =
      Counted-then s.ledger l l' events (ok others) c t

  after_groups-Totals :
      (disk : ℕ → FileSystem) (s : Session Linkage)
      (r : Process × Ledger × List (ManagedGroup Linkage) × Result Failure (List UpdateEvent))
      → Counted s.ledger r.1 r.3
      → SessionTotals s (after_groups sub loader disk s r)
  unfolding SessionTotals after_groups update_objects
  after_groups-Totals disk s (p, l, groups, err e) c = tt
  after_groups-Totals disk s (p, l, groups, ok events) c =
      conclude_update-Totals s l groups events (update_objects sub loader disk p l s.watched) c (
        report_objects-Totals l
          (objects_prepared sub loader l (prepare_watched sub loader disk 0 p s.watched))
          (objects_prepared-Attempted l (prepare_watched sub loader disk 0 p s.watched)))

  update_checked-Totals :
      (disk : ℕ → FileSystem) (p : Process) (s : Session Linkage)
      (checked : Result SessionError (Unit {0}))
      → SessionTotals s (update_checked sub loader disk p s checked)
  unfolding SessionTotals update_checked
  update_checked-Totals disk p s (err e) = tt
  update_checked-Totals disk p s (ok _) =
      after_groups-Totals disk s (update_groups sub loader p s.ledger s.managed_groups)
        (update_groups-Counted sub loader s.managed_groups p s.ledger)

  -- Every transaction that a call of update() reports is counted once: `applied` and `rejected` grow
  -- by the numbers of applied and of rejected events.
  pub update_counts :
      (disk : ℕ → FileSystem) (p p' : Process) (s s' : Session Linkage) (events : List UpdateEvent)
      → update sub loader disk p s ≡ (p', s', ok events)
      → (s'.ledger.applied ≡ s.ledger.applied + applied_events events)
        × (s'.ledger.rejected ≡ s.ledger.rejected + rejected_events events)
  unfolding SessionTotals update
  update_counts disk p p' s s' events e =
      subst (SessionTotals s) e (update_checked-Totals disk p s (check_fatal_error s))
