-- ===== src/Runtime/Session/Worker.antt =====
-- The worker of src/runtime/managed_worker.cpp: observing streams and preparing generations.
pub mod Exclusive
use nekomata.Base.{
  ℕ, ◌+◌, Bool, true, false, not, List, [], ◌∷◌, ◌++◌, map, Option, none, some, if◌then◌else◌,
  Result, ok, err, ◌>>=◌, ◌>>◌, guard,
}
use nekomata.Text.{Bytes, codes}
use nekomata.Protocol.GenerationOffer.{GenerationOfferMember}
use nekomata.Runtime.Backend.{Substituter, Loader}
use nekomata.Runtime.Generation.{
  Failure, runtime_error, fatal_reload_error, PreparedReload, PreparedGeneration,
  validate_generation,
}
use nekomata.Runtime.Transaction.{prepare_object, link_generation}
use nekomata.Runtime.Stream.{
  FileSystem, Thrown, StreamStatus, idle, consumed, rejected, GenerationStream,
  GenerationStreamObservation,
}
use nekomata.Runtime.Stream.Poll.{poll}
use nekomata.Runtime.Session.{ManagedGroup, Session, raise_fatal_worker_error}

-- `what()` of the exceptions that preparation throws.
unfoldable pub what : Failure → Bytes
what (runtime_error message) = message
what (fatal_reload_error message) = message

-- `read_required_bytes`
unfoldable pub read_required_bytes : FileSystem → Bytes → Bytes → Result Failure Bytes
read_required_bytes fs path prefix = elim (fs.read_file_if_present path) [
  | none ↦ err (runtime_error (prefix ++ path))
  | some bytes ↦ ok bytes
]

module _ {L : Type 0} where
  -- The outcome of a pass that the next update() reports.
  unfoldable pub reject_group :
      ManagedGroup L → GenerationStreamObservation → Bytes → ManagedGroup L
  reject_group g o message = record g {
    pending_rejection = message;
    pending_rejection_sequence = o.sequence;
    pending_rejection_id = o.generation_id;
    failed = true;
    prepared = none;
  }

  unfoldable pub accept_group :
      ManagedGroup L
      → GenerationStreamObservation
      → Result Failure (PreparedGeneration L)
      → ManagedGroup L
  unfolding reject_group what
  accept_group g o (ok generation) = record g {
    prepared = some generation;
    failed = false;
    pending_rejection = [];
  }
  accept_group g o (err e) = reject_group g o (what e)

module _ (sub : Substituter) (loader : Loader sub) (fs : FileSystem) where
  open sub use {Process}
  open loader use {Linkage}

  after_read :
      Process
      → Bytes
      → GenerationOfferMember
      → Result Failure Bytes
      → Process × Result Failure (PreparedReload Linkage)
  after_read p group_id m (err e) = (p, err e)
  after_read p group_id m (ok bytes) =
      prepare_object sub loader p bytes (group_id ++ (b'/' ∷ m.member)) m.source_identity
        m.build_information

  -- The loop over the objects; there is one for each member.
  unfoldable pub prepare_members :
      Process
      → Bytes
      → List Bytes
      → List GenerationOfferMember
      → Process × Result Failure (List (PreparedReload Linkage))
  unfolding after_read read_required_bytes
  prepare_members p group_id [] ms = (p, ok [])
  prepare_members p group_id (path ∷ paths) [] = (p, ok [])
  prepare_members p group_id (path ∷ paths) (m ∷ ms) =
      let (p1, one) =
        after_read p group_id m (read_required_bytes fs path (codes "cannot open object file: ")) in
      let (p2, others) = prepare_members p1 group_id paths ms in
      elim one [
        | err e ↦ (p1, err e)
        | ok reload ↦ (p2, others >>= λ reloads. ok (reload ∷ reloads))
      ]

  -- Linking and validating what the loop prepared.
  unfoldable pub finish_generation :
      Bytes
      → Bytes
      → Process × Result Failure (List (PreparedReload Linkage))
      → Process × Result Failure (PreparedGeneration Linkage)
  finish_generation id manifest_key (p, err e) = (p, err e)
  finish_generation id manifest_key (p, ok reloads) =
      let (p', linked) =
        link_generation sub loader p
          (record { id = id; manifest_key = manifest_key; reloads = reloads }) in
      (p', linked >>= λ generation. validate_generation generation >> ok generation)

  unfoldable pub prepare_observation :
      Process
      → ManagedGroup Linkage
      → GenerationStreamObservation
      → StreamStatus
      → Process × ManagedGroup Linkage
  unfolding prepare_members finish_generation reject_group accept_group
  prepare_observation p g o idle = (p, g)
  prepare_observation p g o rejected = (p, reject_group g o o.message)
  prepare_observation p g o consumed =
      let (p', prepared) =
        finish_generation o.generation_id (codes "managed:" ++ g.descriptor.group_id)
          (prepare_members p g.descriptor.group_id o.objects o.offer.members) in
      (p', accept_group g o prepared)

  unfoldable pub after_poll :
      Process
      → ManagedGroup Linkage
      → Result Thrown (GenerationStream × GenerationStreamObservation)
      → Process × Result Thrown (ManagedGroup Linkage)
  unfolding prepare_observation
  after_poll p g (err e) = (p, err e)
  after_poll p g (ok (stream, o)) =
      let (p', g') = prepare_observation p (record g { stream = some stream }) o o.status in
      (p', ok g')

  -- An enabled group has a stream.
  unfoldable pub poll_group :
      Process
      → ManagedGroup Linkage
      → Option GenerationStream
      → Process × Result Thrown (ManagedGroup Linkage)
  unfolding after_poll
  poll_group p g none = (p, ok g)
  poll_group p g (some stream) = after_poll p g (poll fs stream)

  unfoldable pub prepare_managed_group :
      Process → ManagedGroup Linkage → Process × Result Thrown (ManagedGroup Linkage)
  unfolding poll_group
  prepare_managed_group p g = poll_group p g g.stream

  -- One group of a pass before the later ones; an exception ends the pass.
  unfoldable pub add_pass :
      ManagedGroup Linkage
      → List (ManagedGroup Linkage)
      → Process × Result Thrown (ManagedGroup Linkage)
      → Process × List (ManagedGroup Linkage) × Result Thrown (Unit {0})
      → Process × List (ManagedGroup Linkage) × Result Thrown (Unit {0})
  add_pass g gs (p1, err e) later = (p1, g ∷ gs, err e)
  add_pass g gs (p1, ok g') (p2, gs', outcome) = (p2, g' ∷ gs', outcome)

  unfoldable pub worker_pass :
      Process
      → List (ManagedGroup Linkage)
      → Process × List (ManagedGroup Linkage) × Result Thrown (Unit {0})
  unfolding prepare_managed_group add_pass
  worker_pass p [] = (p, [], ok tt)
  worker_pass p (g ∷ gs) =
      let first = if g.enabled then prepare_managed_group p g else (p, ok g) in
      add_pass g gs first (worker_pass first.0 gs)

  -- One turn of `worker_loop`; an exception ends it.
  unfoldable pub worker_step : Process → Session Linkage → Process × Session Linkage
  unfolding worker_pass
  worker_step p s =
      let (p', groups, outcome) = worker_pass p s.managed_groups in
      let passed = record s { managed_groups = groups } in
      if s.worker_running
      then (p', elim outcome [ ok _ ↦ passed | err e ↦ raise_fatal_worker_error e passed ])
      else (p, s)
