-- ===== src/Runtime/Session/Calls.antt =====
-- The calls of src/runtime/native_session.cpp around update(): watching, and the snapshot.
use nekomata.Base.{
  true, false, not, ◌||◌, List, [], ◌∷◌, ◌++◌, map, Option, none, some, any, if◌then◌else◌, Result,
  ok, err, ◌>>=◌, ◌>>◌, guard,
}
use nekomata.Text.{Bytes, codes, equal}
use nekomata.Protocol.Scanner.{is_empty}
use nekomata.Runtime.Generation.{runtime_error}
use nekomata.Runtime.Stream.{FileSystem, Thrown, GenerationStream, generation_stream}
use nekomata.Runtime.Session.{
  ManagedGroup, Session, SessionError, failure, worker_failure, GroupState, GroupSnapshot,
  SessionSnapshot, check_fatal_error,
}

stream_or_throw : Result Thrown GenerationStream → Result SessionError GenerationStream
stream_or_throw (ok stream) = ok stream
stream_or_throw (err e) = err (worker_failure e)

module _ {L : Type 0} where
  no_root_hint : ManagedGroup L → SessionError
  no_root_hint g = failure (
      runtime_error (
        codes "reload_session: reload group '"
        ++ g.descriptor.group_id
        ++ codes "' has no generation root hint"))

  stream_of : FileSystem → ManagedGroup L → Bytes → Result SessionError GenerationStream
  unfolding stream_or_throw
  stream_of fs g hint = elim g.stream [
    | some stream ↦ ok stream
    | none ↦ stream_or_throw (generation_stream fs g.descriptor hint)
  ]

  -- `enable_managed_group`, less the start of the worker.
  unfoldable pub enable_managed_group :
      FileSystem → ManagedGroup L → Result SessionError (ManagedGroup L)
  unfolding stream_of no_root_hint
  enable_managed_group fs g =
      let enabled =
        elim g.descriptor.generation_root_hint as (λ _. Result SessionError (ManagedGroup L)) [
          | none ↦ err (no_root_hint g)
          | some hint ↦
              guard (not (is_empty hint)) (no_root_hint g)
              >> (stream_of fs g hint >>= λ stream.
                  ok (record g { stream = some stream; enabled = true }))
        ] in
      if g.enabled then ok g else enabled

  unfoldable pub enable_groups :
      FileSystem → List (ManagedGroup L) → List (ManagedGroup L) × Result SessionError (Unit {0})
  enable_groups fs [] = ([], ok tt)
  enable_groups fs (g ∷ gs) =
      let (gs', later) = enable_groups fs gs in
      elim (enable_managed_group fs g) [ ok g' ↦ (g' ∷ gs', later) | err e ↦ (g ∷ gs, err e) ]

  -- The member of the group with this id, changed; none where the group is unknown.
  unfoldable pub change_group :
      Bytes
      → (ManagedGroup L → Result SessionError (ManagedGroup L))
      → List (ManagedGroup L)
      → Option (Result SessionError (List (ManagedGroup L)))
  change_group id f [] = none
  change_group id f (g ∷ gs) =
      let later = change_group id f gs in
      if equal g.descriptor.group_id id
      then some (f g >>= λ g'. ok (g' ∷ gs))
      else elim later [ none ↦ none | some r ↦ some (r >>= λ gs'. ok (g ∷ gs')) ]

  -- `find_managed_group`, and what the caller does with the group.
  unfoldable pub with_managed_group :
      Bytes
      → (ManagedGroup L → Result SessionError (ManagedGroup L))
      → Session L
      → Result SessionError (Session L)
  unfolding change_group
  with_managed_group id f s = elim (change_group id f s.managed_groups) [
    | none ↦ err (
        failure (runtime_error (codes "reload_session: unknown reload group '" ++ id ++ codes "'")))
    | some r ↦ r >>= λ gs. ok (record s { managed_groups = gs })
  ]

  -- `enable_managed_group` starts the worker. A worker that has ended left a fatal error, and no call
  -- comes here with one.
  start_worker : Session L → Session L
  start_worker s = record s {
    worker_running = s.worker_running || any (λ (g : ManagedGroup L). g.enabled) s.managed_groups;
  }

  -- `watch()`. Groups before the one that throws stay enabled.
  unfoldable pub watch_all : FileSystem → Session L → Session L × Result SessionError (Unit {0})
  unfolding start_worker
  watch_all fs s =
      let (groups, outcome) = enable_groups fs s.managed_groups in
      let watching = start_worker (record s { managed_groups = groups }) in
      elim (check_fatal_error s) [
        | err e ↦ (s, err e)
        | ok _ ↦ elim s.managed_groups [
          | [] ↦ (
            s,
            err (
                failure (
                  runtime_error (
                    codes
                      "reload_session: no embedded reload group descriptors; nothing to watch"))),
          )
          | g ∷ gs ↦ (watching, outcome)
        ]
      ]

  unfoldable pub watch_group : FileSystem → Session L → Bytes → Result SessionError (Session L)
  unfolding start_worker
  watch_group fs s id = do
    check_fatal_error s
    watching ← with_managed_group id (enable_managed_group fs) s
    ok (start_worker watching)

  unfoldable pub unwatch_all : Session L → Result SessionError (Session L)
  unwatch_all s = do
    check_fatal_error s
    ok (record s {
      managed_groups = map (λ (g : ManagedGroup L). record g { enabled = false }) s.managed_groups;
    })

  unfoldable pub unwatch_group : Session L → Bytes → Result SessionError (Session L)
  unwatch_group s id = do
    check_fatal_error s
    with_managed_group id (λ g. ok (record g { enabled = false })) s

  state_of : ManagedGroup L → GroupState
  state_of g = elim g.prepared [
    | some generation ↦ GroupState.ready
    | none ↦
        if g.failed
        then GroupState.failed
        else if g.enabled
        then GroupState.preparing
        else GroupState.idle
  ]

  group_snapshot : ManagedGroup L → GroupSnapshot
  unfolding state_of
  group_snapshot g = record {
    group_id = g.descriptor.group_id;
    enabled = g.enabled;
    state = state_of g;
    observed_sequence = elim g.stream [
      | none ↦ g.descriptor.baseline_sequence
      | some stream ↦ stream.cursor
    ];
    last_applied_generation = g.last_applied_generation;
  }

  unfoldable pub snapshot : Session L → Result SessionError SessionSnapshot
  unfolding group_snapshot
  snapshot s = do
    check_fatal_error s
    ok (record {
      applied_count = s.ledger.applied;
      rejected_count = s.ledger.rejected;
      last_result = s.ledger.last_result;
      groups = map group_snapshot s.managed_groups;
      watched_paths = map (λ w. w.object_path) s.watched;
    })
