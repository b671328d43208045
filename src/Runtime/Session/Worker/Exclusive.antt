-- ===== src/Runtime/Session/Worker/Exclusive.antt =====
-- A managed group waits with one outcome at most.
use nekomata.Base.{
  ◌≡◌, refl, Bool, true, false, List, [], ◌∷◌, Option, none, some, if◌then◌else◌, Result, ok, err,
  All,
}
use nekomata.Runtime.Backend.{Substituter, Loader}
use nekomata.Runtime.Generation.{Failure, PreparedGeneration}
use nekomata.Runtime.Stream.{
  FileSystem, Thrown, StreamStatus, idle, consumed, rejected, GenerationStreamObservation,
  GenerationStream,
}
use nekomata.Runtime.Stream.Poll.{poll}
use nekomata.Runtime.Session.{ManagedGroup}
use nekomata.Runtime.Session.Worker.{
  reject_group, accept_group, prepare_observation, prepare_managed_group, worker_pass, after_poll,
  poll_group, add_pass,
}

module _ {L : Type 0} where
  -- A prepared transaction and a rejection never wait together.
  abbrev pub IsExclusive : ManagedGroup L → Type 0
  IsExclusive g = elim g.prepared [ none ↦ Unit {0} | some generation ↦ g.pending_rejection ≡ [] ]

  abbrev pub AreExclusive : List (ManagedGroup L) → Type 0
  AreExclusive = All IsExclusive

  accept_group-IsExclusive :
      (g : ManagedGroup L) (o : GenerationStreamObservation)
      (r : Result Failure (PreparedGeneration L))
      → IsExclusive (accept_group g o r)
  unfolding accept_group reject_group
  accept_group-IsExclusive g o (ok generation) = refl
  accept_group-IsExclusive g o (err e) = tt

module _ (sub : Substituter) (loader : Loader sub) (fs : FileSystem) where
  open sub use {Process}
  open loader use {Linkage}

  prepare_observation-IsExclusive :
      (p : Process) (g : ManagedGroup Linkage) (o : GenerationStreamObservation)
      (status : StreamStatus)
      → IsExclusive g
      → IsExclusive (prepare_observation sub loader fs p g o status).1
  unfolding prepare_observation reject_group
  prepare_observation-IsExclusive p g o idle x = x
  prepare_observation-IsExclusive p g o rejected x = tt
  prepare_observation-IsExclusive p g o consumed x = accept_group-IsExclusive g o _

  Passed : Result Thrown (ManagedGroup Linkage) → Type 0
  Passed (err e) = Unit {0}
  Passed (ok g) = IsExclusive g

  after_poll-Passed :
      (p : Process) (g : ManagedGroup Linkage)
      (r : Result Thrown (GenerationStream × GenerationStreamObservation))
      → IsExclusive g
      → Passed (after_poll sub loader fs p g r).1
  unfolding after_poll Passed
  after_poll-Passed p g (err e) x = tt
  after_poll-Passed p g (ok (stream, o)) x =
      prepare_observation-IsExclusive p (record g { stream = some stream }) o o.status x

  poll_group-Passed :
      (p : Process) (g : ManagedGroup Linkage) (stream : Option GenerationStream)
      → IsExclusive g
      → Passed (poll_group sub loader fs p g stream).1
  unfolding poll_group Passed
  poll_group-Passed p g none x = x
  poll_group-Passed p g (some stream) x = after_poll-Passed p g (poll fs stream) x

  first-Passed :
      (p : Process) (g : ManagedGroup Linkage) (on : Bool)
      → IsExclusive g
      → Passed (if on then prepare_managed_group sub loader fs p g else (p, ok g)).1
  unfolding prepare_managed_group Passed
  first-Passed p g true x = poll_group-Passed p g g.stream x
  first-Passed p g false x = x

  add_pass-AreExclusive :
      (g : ManagedGroup Linkage) (gs : List (ManagedGroup Linkage))
      (first : Process × Result Thrown (ManagedGroup Linkage))
      (later : Process × List (ManagedGroup Linkage) × Result Thrown (Unit {0}))
      → AreExclusive (g ∷ gs)
      → Passed first.1
      → AreExclusive later.1
      → AreExclusive (add_pass sub loader fs g gs first later).1
  unfolding add_pass Passed
  add_pass-AreExclusive g gs (p1, err e) later x y z = x
  add_pass-AreExclusive g gs (p1, ok g') (p2, gs', outcome) x y z = (y, z)

  -- A pass of the worker never leaves a group with both a prepared transaction and a rejection to
  -- report, if no group had both before.
  pub worker_pass-AreExclusive :
      (gs : List (ManagedGroup Linkage)) (p : Process)
      → AreExclusive gs
      → AreExclusive (worker_pass sub loader fs p gs).1
  unfolding worker_pass
  worker_pass-AreExclusive [] p x = tt
  worker_pass-AreExclusive (g ∷ gs) p (x, xs) =
      let first = if g.enabled then prepare_managed_group sub loader fs p g else (p, ok g) in
      add_pass-AreExclusive g gs first (worker_pass sub loader fs first.0 gs) (x, xs)
        (first-Passed p g g.enabled x) (worker_pass-AreExclusive gs first.0 xs)
