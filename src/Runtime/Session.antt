-- ===== src/Runtime/Session.antt =====
-- src/runtime/native_session.cpp and managed_worker.cpp, with the types of session_impl.hpp and
-- include/neko/session.hpp: the members of a session and the calls that only change them.
pub mod Calls
pub mod Worker
pub mod Update
pub mod Poisoned
use nekomata.Base.{
  ℕ, ◌+◌, Bool, true, false, not, ◌&&◌, ◌||◌, List, [], ◌∷◌, ◌++◌, map, Option, none, some, ◌==◌,
  if◌then◌else◌, Result, ok, err, ◌>>=◌, ◌>>◌, guard, get_or,
}
use nekomata.Text.{Bytes, codes, equal, contains, starts_with}
use nekomata.Protocol.Scanner.{is_empty}
use nekomata.Protocol.GroupDescriptor.{GroupDescriptor}
use nekomata.Runtime.Generation.{
  Failure, runtime_error, fatal_reload_error, incomplete_rollback_message, PreparedGeneration,
  Ledger,
}
use nekomata.Runtime.Stream.{FileSystem, Thrown, GenerationStream, generation_stream}

pub data ReloadErrorCode : Type 0 where
  no_error invalid_artifact incompatible integrity object_rejected commit_failed : ReloadErrorCode

pub data UpdateStatus : Type 0 where
  applied rejected : UpdateStatus

pub record UpdateEvent : Type 0 where
  pub status : UpdateStatus
  pub code : ReloadErrorCode
  pub group_id : Bytes
  pub generation_id : Bytes
  pub message : Bytes
  pub redirected_function_count : ℕ

unfoldable pub classify_stream_rejection : Bytes → ReloadErrorCode
classify_stream_rejection text =
    if contains text (codes "does not match descriptor")
    then incompatible
    else if contains text (codes "digest mismatch")
        || (contains text (codes "is missing or not a regular file")
            || contains text (codes "resolves outside the generation directory"))
    then integrity
    else invalid_artifact

unfoldable pub classify_transaction_rejection : Bytes → ReloadErrorCode
classify_transaction_rejection text =
    if starts_with text (codes "reload rejected and rolled back")
    then commit_failed
    else if contains text (codes "object file is not ready")
    then integrity
    else object_rejected

pub record WatchedObject : Type 0 where
  pub object_path : Bytes
  pub source_path : Bytes

pub record ManagedGroup (Linkage : Type 0) : Type 0 where
  pub descriptor : GroupDescriptor
  pub stream : Option GenerationStream
  pub enabled : Bool
  pub failed : Bool
  pub last_applied_generation : Bytes
  pub prepared : Option (PreparedGeneration Linkage)
  pub pending_rejection : Bytes
  pub pending_rejection_sequence : ℕ
  pub pending_rejection_id : Bytes

-- The members of `native_session`; the mutex separates the worker's passes from the calls, so each
-- of them is one step.
pub record Session (Linkage : Type 0) : Type 0 where
  pub ledger : Ledger
  pub watched : List WatchedObject
  pub managed_groups : List (ManagedGroup Linkage)
  pub worker_running : Bool
  pub fatal_worker_error : Option Thrown

-- What a call of the session throws: its own error, or the worker's, thrown again.
pub data SessionError : Type 0 where
  failure : Failure → SessionError
  worker_failure : Thrown → SessionError

pub data GroupState : Type 0 where
  idle preparing ready failed : GroupState

pub record GroupSnapshot : Type 0 where
  pub group_id : Bytes
  pub enabled : Bool
  pub state : GroupState
  pub observed_sequence : ℕ
  pub last_applied_generation : Bytes

pub record SessionSnapshot : Type 0 where
  pub applied_count : ℕ
  pub rejected_count : ℕ
  pub last_result : Bytes
  pub groups : List GroupSnapshot
  pub watched_paths : List Bytes

unfoldable pub normalized_source_path : FileSystem → Bytes → Bytes
normalized_source_path fs path =
    if is_empty path
    then []
    else fs.lexically_normal (elim (fs.absolute path) [ none ↦ path | some absolute ↦ absolute ])

module _ {L : Type 0} where
  unfoldable pub check_fatal_worker_error : Session L → Result SessionError (Unit {0})
  check_fatal_worker_error s = elim s.fatal_worker_error [
    | none ↦ ok tt
    | some e ↦ err (worker_failure e)
  ]

  unfoldable pub check_fatal_error : Session L → Result SessionError (Unit {0})
  unfolding check_fatal_worker_error
  check_fatal_error s =
      if s.ledger.commit_poisoned
      then err (failure (fatal_reload_error incomplete_rollback_message))
      else check_fatal_worker_error s

  -- The first exception stays.
  unfoldable pub raise_fatal_worker_error : Thrown → Session L → Session L
  raise_fatal_worker_error e s = record s {
    fatal_worker_error = elim s.fatal_worker_error [ none ↦ some e | some first ↦ some first ];
    worker_running = false;
  }

  -- `watch` of an object, with the source path or an empty one.
  unfoldable pub watch_object :
      FileSystem → Session L → Bytes → Bytes → Result SessionError (Session L)
  unfolding check_fatal_error
  watch_object fs s object_path source_path = do
    check_fatal_error s
    ok (record s {
      watched =
          s.watched
          ++ record {
            object_path = object_path;
            source_path = normalized_source_path fs source_path;
          }
            ∷ [];
    })
