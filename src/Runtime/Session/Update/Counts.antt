-- ===== src/Runtime/Session/Update/Counts.antt =====
-- The counters of the session and the events of update().
use nekomata.Base.{
  ℕ, ◌+◌, ◌≡◌, refl, ap, ◌∙◌, true, List, [], ◌∷◌, ◌++◌, Option, none, some, arith, Result, ok, err,
  ◌>>=◌, Bool-cases, inl, inr,
}
use nekomata.Protocol.Scanner.{is_empty}
use nekomata.Runtime.Backend.{Substituter, Loader}
use nekomata.Runtime.Generation.{
  Failure, runtime_error, fatal_reload_error, incomplete_rollback_message, PreparedReload,
  PreparedGeneration, Ledger, note_redirects, retain, publish,
}
use nekomata.Runtime.Transaction.{commit}
use nekomata.Runtime.Transaction.Commit.{Ends, commit-Ends}
use nekomata.Runtime.Session.{UpdateEvent, applied, rejected, ManagedGroup}
use nekomata.Runtime.Session.Update.{
  after_commit, report_rejection, update_enabled, add_group, update_group, update_groups,
}

abbrev pub applied_events : List UpdateEvent → ℕ
applied_events [] = 0
applied_events (e ∷ es) = elim e.status [ applied ↦ 1 | rejected ↦ 0 ] + applied_events es

abbrev pub rejected_events : List UpdateEvent → ℕ
rejected_events [] = 0
rejected_events (e ∷ es) = elim e.status [ applied ↦ 0 | rejected ↦ 1 ] + rejected_events es

pub applied_events-append :
    (xs ys : List UpdateEvent)
    → (applied_events (xs ++ ys) ≡ applied_events xs + applied_events ys)
      × (rejected_events (xs ++ ys) ≡ rejected_events xs + rejected_events ys)
applied_events-append [] ys = (omega arith, omega arith)
applied_events-append (x ∷ xs) ys =
    let (a, r) = applied_events-append xs ys in (omega (arith, a), omega (arith, r))

module _ {L : Type 0} where
  note_redirects-counts :
      (rs : List (PreparedReload L)) (s : Ledger)
      → ((note_redirects s rs).applied ≡ s.applied) × ((note_redirects s rs).rejected ≡ s.rejected)
  unfolding note_redirects
  note_redirects-counts [] s = (refl, refl)
  note_redirects-counts (r ∷ rs) s = note_redirects-counts rs _

  pub publish-counts :
      (s : Ledger) (g : PreparedGeneration L)
      → ((publish s g).applied ≡ s.applied + 1) × ((publish s g).rejected ≡ s.rejected)
  unfolding publish retain
  publish-counts s g =
      let (a, r) = note_redirects-counts g.reloads (retain s g) in (ap (λ n. n + 1) a, r)

-- The counters moved by the events reported; a failure that leaves update() poisoned the session.
abbrev pub Counted : Ledger → Ledger → Result Failure (List UpdateEvent) → Type 0
Counted s s' (ok events) =
    (s'.applied ≡ s.applied + applied_events events)
    × (s'.rejected ≡ s.rejected + rejected_events events)
Counted s s' (err e) =
    (s'.commit_poisoned ≡ true) × (e ≡ fatal_reload_error incomplete_rollback_message)

pub Counted-then :
    (s s1 s2 : Ledger) (events : List UpdateEvent) (later : Result Failure (List UpdateEvent))
    → Counted s s1 (ok events)
    → Counted s1 s2 later
    → Counted s s2 (later >>= λ others. ok (events ++ others))
Counted-then s s1 s2 events (ok others) (a, r) (a', r') =
    let (x, y) = applied_events-append events others in
    (omega (arith, a, a', x), omega (arith, r, r', y))
Counted-then s s1 s2 events (err e) counted failed = failed

module _ (sub : Substituter) (loader : Loader sub) where
  open sub use {Process}
  open loader use {Linkage}

  after_commit-Counted :
      (p : Process) (g : ManagedGroup Linkage) (generation : PreparedGeneration Linkage)
      (s : Ledger) (r : Process × Ledger × Result Failure (Unit {0}))
      → Ends sub loader p generation s r
      → Counted s
          (after_commit sub loader g generation r).1
          (after_commit sub loader g generation r).3
  unfolding after_commit Ends
  after_commit-Counted p g generation s (q, s', ok _) same =
      let (a, r) = publish-counts s generation in
      (
        ap (λ (l : Ledger). l.applied) same ∙ a,
        omega (arith, ap (λ (l : Ledger). l.rejected) same, r),
      )
  after_commit-Counted p g generation s (q, s', err (runtime_error message)) (keep, same) = (
    omega (arith, ap (λ (l : Ledger). l.applied) same),
    omega (arith, ap (λ (l : Ledger). l.rejected) same),
  )
  after_commit-Counted p g generation s (q, s', err (fatal_reload_error message)) (same, said) =
      (unfold retain in ap (λ (l : Ledger). l.commit_poisoned) same, ap fatal_reload_error said)

  report_rejection-Counted :
      (p : Process) (s : Ledger) (g : ManagedGroup Linkage)
      → Counted s (report_rejection sub loader p s g).1 (report_rejection sub loader p s g).3
  unfolding report_rejection
  report_rejection-Counted p s g = elim (Bool-cases (is_empty g.pending_rejection)) [
    | inl quiet ↦ rw quiet (omega arith, omega arith)
    | inr pending ↦ rw pending (omega arith, omega arith)
  ]

  update_enabled-Counted :
      (p : Process) (s : Ledger) (g : ManagedGroup Linkage)
      (o : Option (PreparedGeneration Linkage))
      → Counted s (update_enabled sub loader p s g o).1 (update_enabled sub loader p s g o).3
  unfolding update_enabled
  update_enabled-Counted p s g (some generation) =
      after_commit-Counted p g generation s (commit sub loader p generation s)
        (commit-Ends sub loader p generation s)
  update_enabled-Counted p s g none = report_rejection-Counted p s g

  update_group-Counted :
      (p : Process) (s : Ledger) (g : ManagedGroup Linkage)
      → Counted s (update_group sub loader p s g).1 (update_group sub loader p s g).3
  unfolding update_group
  update_group-Counted p s g = elim (Bool-cases g.enabled) [
    | inl on ↦ simp on (update_enabled-Counted p s g g.prepared)
    | inr off ↦ simp off (omega arith, omega arith)
  ]

  add_group-Counted :
      (s : Ledger) (gs : List (ManagedGroup Linkage))
      (first : Process × Ledger × ManagedGroup Linkage × Result Failure (List UpdateEvent))
      (later : Process × Ledger × List (ManagedGroup Linkage) × Result Failure (List UpdateEvent))
      → Counted s first.1 first.3
      → Counted first.1 later.1 later.3
      → Counted s (add_group sub loader gs first later).1 (add_group sub loader gs first later).3
  unfolding add_group
  add_group-Counted s gs (p1, s1, g, err e) later c d = c
  add_group-Counted s gs (p1, s1, g, ok events) (p2, s2, gs', later) c d =
      Counted-then s s1 s2 events later c d

  pub update_groups-Counted :
      (gs : List (ManagedGroup Linkage)) (p : Process) (s : Ledger)
      → Counted s (update_groups sub loader p s gs).1 (update_groups sub loader p s gs).3
  unfolding update_groups
  update_groups-Counted [] p s = (omega arith, omega arith)
  update_groups-Counted (g ∷ gs) p s =
      let first = update_group sub loader p s g in
      add_group-Counted s gs first (update_groups sub loader first.0 first.1 gs)
        (update_group-Counted p s g) (update_groups-Counted gs first.0 first.1)
