-- ===== src/Runtime/Session/Update/Keeps.antt =====
-- What rejected transactions leave of the process.
use nekomata.Base.{
  ℕ, ◌≡◌, refl, ◌∙◌, subst, List, [], ◌∷◌, Option, none, some, arith, Result, ok, err, Bool-cases,
  inl, inr,
}
use nekomata.Protocol.Scanner.{is_empty}
use nekomata.Runtime.Backend.{Substituter, Loader}
use nekomata.Runtime.Generation.{
  Failure, runtime_error, fatal_reload_error, PreparedGeneration, Ledger,
}
use nekomata.Runtime.Transaction.{commit}
use nekomata.Runtime.Transaction.Commit.{Ends, commit-Ends}
use nekomata.Runtime.Session.{UpdateEvent, ManagedGroup}
use nekomata.Runtime.Session.Update.{
  after_commit, report_rejection, update_enabled, update_group, add_group, update_groups,
}
use nekomata.Runtime.Session.Update.Counts.{applied_events, applied_events-append}

module _ (sub : Substituter) (loader : Loader sub) where
  open sub use {Process, memory}
  open loader use {Linkage}

  -- With no applied event, no byte of the process changed.
  Kept : Process → Process → Result Failure (List UpdateEvent) → Type 0
  Kept p q (err e) = Unit {0}
  Kept p q (ok events) = applied_events events ≡ 0 → (x : ℕ) → memory q x ≡ memory p x

  after_commit-Kept :
      (p : Process) (g : ManagedGroup Linkage) (generation : PreparedGeneration Linkage)
      (s : Ledger) (r : Process × Ledger × Result Failure (Unit {0}))
      → Ends sub loader p generation s r
      → Kept p (after_commit sub loader g generation r).0 (after_commit sub loader g generation r).3
  unfolding after_commit Ends Kept
  after_commit-Kept p g generation s (q, s', ok _) ends =
      λ none_applied. absurd (omega (arith, none_applied))
  after_commit-Kept p g generation s (q, s', err (runtime_error m)) (same, ledger) = λ _. same
  after_commit-Kept p g generation s (q, s', err (fatal_reload_error m)) ends = tt

  report_rejection-Kept :
      (p : Process) (s : Ledger) (g : ManagedGroup Linkage)
      → Kept p (report_rejection sub loader p s g).0 (report_rejection sub loader p s g).3
  unfolding report_rejection Kept
  report_rejection-Kept p s g = elim (Bool-cases (is_empty g.pending_rejection)) [
    | inl quiet ↦ simp (quiet, Kept) (λ _ x. refl)
    | inr waiting ↦ simp (waiting, Kept) (λ _ x. refl)
  ]

  update_group-Kept :
      (p : Process) (s : Ledger) (g : ManagedGroup Linkage)
      → Kept p (update_group sub loader p s g).0 (update_group sub loader p s g).3
  unfolding update_group
  update_group-Kept p s g = elim (Bool-cases g.enabled) [
    | inl on ↦ simp on (enabled-Kept g.prepared)
    | inr off ↦ simp off (unfold Kept in λ _ x. refl)
  ]
    where
      enabled-Kept :
          (o : Option (PreparedGeneration Linkage))
          → Kept p (update_enabled sub loader p s g o).0 (update_enabled sub loader p s g o).3
      enabled-Kept (some generation) =
          unfold update_enabled in
          after_commit-Kept p g generation s (commit sub loader p generation s)
            (commit-Ends sub loader p generation s)
      enabled-Kept none = unfold update_enabled in report_rejection-Kept p s g

  add_group-Kept :
      (p : Process) (gs : List (ManagedGroup Linkage))
      (first : Process × Ledger × ManagedGroup Linkage × Result Failure (List UpdateEvent))
      (later : Process × Ledger × List (ManagedGroup Linkage) × Result Failure (List UpdateEvent))
      → Kept p first.0 first.3
      → Kept first.0 later.0 later.3
      → Kept p (add_group sub loader gs first later).0 (add_group sub loader gs first later).3
  unfolding add_group Kept
  add_group-Kept p gs (p1, s1, g, err e) later a b = tt
  add_group-Kept p gs (p1, s1, g, ok events) (p2, s2, gs', err e) a b = tt
  add_group-Kept p gs (p1, s1, g, ok events) (p2, s2, gs', ok others) a b = λ none_applied x.
      let (sum, _) = applied_events-append events others in
      b (omega (arith, sum, none_applied)) x ∙ a (omega (arith, sum, none_applied)) x

  update_groups-Kept :
      (gs : List (ManagedGroup Linkage)) (p : Process) (s : Ledger)
      → Kept p (update_groups sub loader p s gs).0 (update_groups sub loader p s gs).3
  unfolding update_groups
  update_groups-Kept [] p s = unfold Kept in λ _ x. refl
  update_groups-Kept (g ∷ gs) p s =
      let first = update_group sub loader p s g in
      add_group-Kept p gs first (update_groups sub loader first.0 first.1 gs)
        (update_group-Kept p s g) (update_groups-Kept gs first.0 first.1)

  -- If the managed part of update() returns and applied nothing, every byte of the process is as it
  -- was, however many transactions were rejected and rolled back.
  pub update_groups_keeps :
      (gs gs' : List (ManagedGroup Linkage)) (p q : Process) (s s' : Ledger)
      (events : List UpdateEvent)
      → update_groups sub loader p s gs ≡ (q, s', gs', ok events)
      → applied_events events ≡ 0
      → (x : ℕ) → memory q x ≡ memory p x
  unfolding Kept
  update_groups_keeps gs gs' p q s s' events e =
      subst
        (λ (r : Process × Ledger × List (ManagedGroup Linkage) × Result Failure (List UpdateEvent)).
          Kept p r.0 r.3)
        e (update_groups-Kept gs p s)
