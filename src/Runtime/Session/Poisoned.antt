-- ===== src/Runtime/Session/Poisoned.antt =====
-- A session that may not go on says so at every call.
use nekomata.Base.{ℕ, ◌≡◌, refl, true, false, some, err}
use nekomata.Text.{Bytes}
use nekomata.Runtime.Backend.{Substituter, Loader}
use nekomata.Runtime.Generation.{fatal_reload_error, incomplete_rollback_message}
use nekomata.Runtime.Stream.{FileSystem, Thrown}
use nekomata.Runtime.Session.{
  Session, SessionError, failure, worker_failure, check_fatal_error, check_fatal_worker_error,
  watch_object,
}
use nekomata.Runtime.Session.Calls.{watch_all, watch_group, unwatch_all, unwatch_group, snapshot}
use nekomata.Runtime.Session.Update.{update, update_checked}

module _ (sub : Substituter) (loader : Loader sub) (fs : FileSystem) where
  open loader use {Linkage}

  -- Every call of the session throws `e` and leaves the process and the session alone.
  pub record Refuses (s : Session Linkage) (e : SessionError) : Type 0 where
    pub watch_object_throws : (path source : Bytes) → watch_object fs s path source ≡ err e
    pub watch_all_throws : watch_all fs s ≡ (s, err e)
    pub watch_group_throws : (id : Bytes) → watch_group fs s id ≡ err e
    pub unwatch_all_throws : unwatch_all s ≡ err e
    pub unwatch_group_throws : (id : Bytes) → unwatch_group s id ≡ err e
    pub snapshot_throws : snapshot s ≡ err e
    pub update_throws :
        (disk : ℕ → FileSystem) (p : sub.Process) → update sub loader disk p s ≡ (p, s, err e)

  checked-Refuses :
      (s : Session Linkage) (e : SessionError) → check_fatal_error s ≡ err e → Refuses s e
  unfolding watch_object watch_all watch_group unwatch_all unwatch_group snapshot update
      update_checked
  checked-Refuses s e fails = record {
    watch_object_throws = λ path source. rw fails refl;
    watch_all_throws = rw (fails, watch_all) refl;
    watch_group_throws = λ id. rw fails refl;
    unwatch_all_throws = rw (fails, watch_all) refl;
    unwatch_group_throws = λ id. rw fails refl;
    snapshot_throws = rw fails refl;
    update_throws = λ disk p. rw (fails, update_checked) refl;
  }

  worker-throws :
      (s : Session Linkage) (e : Thrown)
      → s.fatal_worker_error ≡ some e
      → check_fatal_worker_error s ≡ err (worker_failure e)
  unfolding check_fatal_worker_error
  worker-throws s e failed = rw failed refl

  -- Once a rollback was incomplete, every call throws the fixed message and changes nothing.
  pub poisoned-Refuses :
      (s : Session Linkage)
      → s.ledger.commit_poisoned ≡ true
      → Refuses s (failure (fatal_reload_error incomplete_rollback_message))
  unfolding check_fatal_error
  poisoned-Refuses s poisoned = checked-Refuses s _ (simp poisoned refl)

  -- An exception that ended the worker is thrown again by every call of a session that is not
  -- poisoned, and nothing changes.
  pub worker_failure-Refuses :
      (s : Session Linkage) (e : Thrown)
      → s.ledger.commit_poisoned ≡ false
      → s.fatal_worker_error ≡ some e
      → Refuses s (worker_failure e)
  unfolding check_fatal_error
  worker_failure-Refuses s e sound failed =
      checked-Refuses s _ (simp sound (worker-throws s e failed))
