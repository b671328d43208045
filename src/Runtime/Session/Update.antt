-- ===== src/Runtime/Session/Update.antt =====
-- `update()` of src/runtime/native_session.cpp, and `try_prepare` of prepare_generation.cpp.
pub mod Settles
pub mod Tells
pub mod Counts
pub mod Totals
pub mod Keeps
use nekomata.Base.{
  ℕ, ◌+◌, Bool, true, false, not, List, [], ◌∷◌, ◌++◌, map, Option, none, some, if◌then◌else◌,
  Result, ok, err, ◌>>=◌, ◌>>◌, guard, length,
}
use nekomata.Text.{Bytes, codes}
use nekomata.Protocol.Scanner.{is_empty}
use nekomata.Runtime.Backend.{Substituter, Loader}
use nekomata.Runtime.Generation.{
  Failure, runtime_error, fatal_reload_error, PreparedReload, PreparedGeneration, Ledger,
  planned_entries, validate_generation,
}
use nekomata.Runtime.Transaction.{prepare_object, link_generation, commit}
use nekomata.Runtime.Stream.{FileSystem}
use nekomata.Runtime.Session.Worker.{read_required_bytes}
use nekomata.Runtime.Session.{
  UpdateEvent, UpdateStatus, applied, rejected, ReloadErrorCode, no_error,
  classify_stream_rejection, classify_transaction_rejection, WatchedObject, ManagedGroup, Session,
  SessionError, failure, check_fatal_error,
}

abbrev pub applied_event : Bytes → Bytes → ℕ → UpdateEvent
applied_event group_id generation_id count = record {
  status = applied;
  code = no_error;
  group_id = group_id;
  generation_id = generation_id;
  message = [];
  redirected_function_count = count;
}

abbrev pub rejected_event : Bytes → Bytes → ReloadErrorCode → Bytes → UpdateEvent
rejected_event group_id generation_id code message = record {
  status = rejected;
  code = code;
  group_id = group_id;
  generation_id = generation_id;
  message = message;
  redirected_function_count = 0;
}

-- `++rejected_; last_result_ = message;`
abbrev pub count_rejection : Ledger → Bytes → Ledger
count_rejection s message = record s { rejected = s.rejected + 1; last_result = message }

unfoldable pub claimed_path_for : Bytes → Bytes
claimed_path_for path = path ++ codes ".claimed"

module _ (sub : Substituter) (loader : Loader sub) where
  open sub use {Process}
  open loader use {Linkage}

  -- What follows the commit of a group's prepared generation.
  unfoldable pub after_commit :
      ManagedGroup Linkage
      → PreparedGeneration Linkage
      → Process × Ledger × Result Failure (Unit {0})
      → Process × Ledger × ManagedGroup Linkage × Result Failure (List UpdateEvent)
  after_commit g generation (p, s, ok _) = (
    p,
    s,
    record g { failed = false; last_applied_generation = generation.id; prepared = none },
    ok (
        applied_event g.descriptor.group_id generation.id
          (length (planned_entries generation.reloads))
        ∷ []),
  )
  after_commit g generation (p, s, err (fatal_reload_error message)) =
      (p, s, g, err (fatal_reload_error message))
  after_commit g generation (p, s, err (runtime_error message)) = (
    p,
    count_rejection s message,
    record g { prepared = none; failed = true },
    ok (
        rejected_event g.descriptor.group_id generation.id (classify_transaction_rejection message)
          message
        ∷ []),
  )

  -- A rejection that the worker left, reported and cleared.
  unfoldable pub report_rejection :
      Process
      → Ledger
      → ManagedGroup Linkage
      → Process × Ledger × ManagedGroup Linkage × Result Failure (List UpdateEvent)
  report_rejection p s g = if is_empty g.pending_rejection then (p, s, g, ok []) else (
    p,
    count_rejection s g.pending_rejection,
    record g { pending_rejection = [] },
    ok (
        rejected_event g.descriptor.group_id g.pending_rejection_id
          (classify_stream_rejection g.pending_rejection) g.pending_rejection
        ∷ []),
  )

  -- An enabled group, by what it has prepared.
  unfoldable pub update_enabled :
      Process
      → Ledger
      → ManagedGroup Linkage
      → Option (PreparedGeneration Linkage)
      → Process × Ledger × ManagedGroup Linkage × Result Failure (List UpdateEvent)
  unfolding after_commit report_rejection
  update_enabled p s g (some generation) =
      after_commit g generation (commit sub loader p generation s)
  update_enabled p s g none = report_rejection p s g

  unfoldable pub update_group :
      Process
      → Ledger
      → ManagedGroup Linkage
      → Process × Ledger × ManagedGroup Linkage × Result Failure (List UpdateEvent)
  unfolding update_enabled
  update_group p s g = if g.enabled then update_enabled p s g g.prepared else (p, s, g, ok [])

  -- One group's outcome before those of the later groups; only an exception keeps these out.
  unfoldable pub add_group :
      List (ManagedGroup Linkage)
      → Process × Ledger × ManagedGroup Linkage × Result Failure (List UpdateEvent)
      → Process × Ledger × List (ManagedGroup Linkage) × Result Failure (List UpdateEvent)
      → Process × Ledger × List (ManagedGroup Linkage) × Result Failure (List UpdateEvent)
  add_group gs (p1, s1, g, err e) later = (p1, s1, g ∷ gs, err e)
  add_group gs (p1, s1, g, ok events) (p2, s2, gs', later) =
      (p2, s2, g ∷ gs', later >>= λ others. ok (events ++ others))

  unfoldable pub update_groups :
      Process
      → Ledger
      → List (ManagedGroup Linkage)
      → Process × Ledger × List (ManagedGroup Linkage) × Result Failure (List UpdateEvent)
  unfolding update_group add_group
  update_groups p s [] = (p, s, [], ok [])
  update_groups p s (g ∷ gs) =
      let first = update_group p s g in add_group gs first (update_groups first.0 first.1 gs)

  claimed_object :
      Process
      → WatchedObject
      → Result Failure Bytes
      → Process × Result Failure (List (PreparedReload Linkage))
  claimed_object p w (err e) = (p, err e)
  claimed_object p w (ok bytes) =
      let (p', prepared) = prepare_object sub loader p bytes w.object_path w.source_path [] in
      (p', prepared >>= λ reload. ok (reload ∷ []))

  -- `try_prepare`; no reload where there is no file to claim. The planner's result is only logged.
  unfoldable pub try_prepare :
      FileSystem
      → Process
      → WatchedObject
      → Process × Result Failure (List (PreparedReload Linkage))
  unfolding claimed_path_for read_required_bytes claimed_object
  try_prepare fs p w =
      let path = w.object_path in
      let claimed = claimed_path_for path in
      let normal = record w { object_path = fs.lexically_normal path } in
      if fs.is_regular_file path
      then (if fs.rename path claimed
          then claimed_object p normal
              (read_required_bytes fs claimed (codes "cannot open object file: "))
          else (p, ok []))
      else (p, ok [])

  -- `disk n` is the file system when the n-th watched object is looked at.
  unfoldable pub prepare_watched :
      (ℕ → FileSystem)
      → ℕ
      → Process
      → List WatchedObject
      → Process × Result Failure (List (PreparedReload Linkage))
  unfolding try_prepare
  prepare_watched disk n p [] = (p, ok [])
  prepare_watched disk n p (w ∷ ws) =
      let (p1, one) = try_prepare (disk n) p w in
      let (p2, others) = prepare_watched disk (n + 1) p1 ws in
      elim one [ err e ↦ (p1, err e) | ok reloads ↦ (p2, others >>= λ more. ok (reloads ++ more)) ]

  unfoldable pub committed_objects :
      PreparedGeneration Linkage
      → Process × Ledger × Result Failure (Unit {0})
      → Process × Ledger × Result Failure (List UpdateEvent)
  committed_objects generation (p, s, outcome) =
      (p, s, outcome >> ok (applied_event [] [] (length (planned_entries generation.reloads)) ∷ []))

  unfoldable pub validated_objects :
      Process
      → Ledger
      → PreparedGeneration Linkage
      → Result Failure (Unit {0})
      → Process × Ledger × Result Failure (List UpdateEvent)
  unfolding committed_objects
  validated_objects p s generation (err e) = (p, s, err e)
  validated_objects p s generation (ok _) =
      committed_objects generation (commit sub loader p generation s)

  -- The commit of the watched objects, once linked.
  unfoldable pub commit_objects :
      Ledger
      → Process × Result Failure (PreparedGeneration Linkage)
      → Process × Ledger × Result Failure (List UpdateEvent)
  unfolding validated_objects
  commit_objects s (p, err e) = (p, s, err e)
  commit_objects s (p, ok generation) =
      validated_objects p s generation (validate_generation generation)

  unfoldable pub objects_prepared :
      Ledger
      → Process × Result Failure (List (PreparedReload Linkage))
      → Process × Ledger × Result Failure (List UpdateEvent)
  unfolding commit_objects
  objects_prepared s (p, err e) = (p, s, err e)
  objects_prepared s (p, ok []) = (p, s, ok [])
  objects_prepared s (p, ok (r ∷ rs)) =
      commit_objects s
        (link_generation sub loader p (record { id = []; manifest_key = []; reloads = r ∷ rs }))

  -- The handlers of the watched objects' transaction.
  unfoldable pub report_objects :
      Process × Ledger × Result Failure (List UpdateEvent)
      → Process × Ledger × Result Failure (List UpdateEvent)
  report_objects (p, s, ok events) = (p, s, ok events)
  report_objects (p, s, err (fatal_reload_error message)) = (p, s, err (fatal_reload_error message))
  report_objects (p, s, err (runtime_error message)) = (
    p,
    count_rejection s message,
    ok (rejected_event [] [] (classify_transaction_rejection message) message ∷ []),
  )

  unfoldable pub update_objects :
      (ℕ → FileSystem)
      → Process
      → Ledger
      → List WatchedObject
      → Process × Ledger × Result Failure (List UpdateEvent)
  unfolding prepare_watched objects_prepared report_objects
  update_objects disk p s ws = report_objects (objects_prepared s (prepare_watched disk 0 p ws))

  -- The end of update(): the events of the watched objects come last.
  unfoldable pub conclude_update :
      Session Linkage
      → List (ManagedGroup Linkage)
      → List UpdateEvent
      → Process × Ledger × Result Failure (List UpdateEvent)
      → Process × Session Linkage × Result SessionError (List UpdateEvent)
  conclude_update s groups events (p, l, err e) =
      (p, record s { ledger = l; managed_groups = groups }, err (failure e))
  conclude_update s groups events (p, l, ok others) =
      (p, record s { ledger = l; managed_groups = groups }, ok (events ++ others))

  -- The watched objects, behind the managed groups.
  unfoldable pub after_groups :
      (ℕ → FileSystem)
      → Session Linkage
      → Process × Ledger × List (ManagedGroup Linkage) × Result Failure (List UpdateEvent)
      → Process × Session Linkage × Result SessionError (List UpdateEvent)
  unfolding update_objects conclude_update
  after_groups disk s (p, l, groups, err e) =
      (p, record s { ledger = l; managed_groups = groups }, err (failure e))
  after_groups disk s (p, l, groups, ok events) =
      conclude_update s groups events (update_objects disk p l s.watched)

  unfoldable pub update_checked :
      (ℕ → FileSystem)
      → Process
      → Session Linkage
      → Result SessionError (Unit {0})
      → Process × Session Linkage × Result SessionError (List UpdateEvent)
  unfolding after_groups update_groups
  update_checked disk p s (err e) = (p, s, err e)
  update_checked disk p s (ok _) = after_groups disk s (update_groups p s.ledger s.managed_groups)

  unfoldable pub update :
      (ℕ → FileSystem)
      → Process
      → Session Linkage
      → Process × Session Linkage × Result SessionError (List UpdateEvent)
  unfolding update_checked
  update disk p s = update_checked disk p s (check_fatal_error s)
