-- ===== src/Runtime/Tests.antt =====
-- The session's theorems at that process and that session.
use nekomata.Base.{◌↔◌, ℕ, ◌+◌, ◌≡◌, refl, true, List, [], ◌∷◌, some, Result, ok, err, All}
use nekomata.Text.{codes, to_string, contains, starts_with}
use nekomata.Protocol.Scanner.{is_empty}
use nekomata.Protocol.GenerationOffer.{GenerationOfferReference}
use nekomata.Elf.CodePages.{Pages, snapshot_entry, patchable_entry, patch_entry, restore_entry}
use nekomata.Elf.CodePages.Backend.{code_pages}
use nekomata.Runtime.Generation.{
  Failure, runtime_error, fatal_reload_error, incomplete_rollback_message, Ledger, code_of,
}
use nekomata.Runtime.Transaction.{commit}
use nekomata.Runtime.Transaction.Commit.{commit_rejected}
use nekomata.Runtime.Transaction.Fatal.{RollbackFails, Poisons, commit_fatal}
use nekomata.Runtime.Transaction.Redirects.{commit-Applied, Applied}
use nekomata.Runtime.Stream.{
  GenerationStreamObservation, report_malformed, filesystem_error, GenerationStream, newest,
}
use nekomata.Runtime.Stream.Newest.{newest-AtMost, NotNewer, OneOf}
use nekomata.Runtime.Session.{
  integrity, commit_failed, check_fatal_error, classify_stream_rejection,
  classify_transaction_rejection, ManagedGroup, Session, UpdateEvent, SessionError, failure,
  worker_failure,
}
use nekomata.Runtime.Session.Poisoned.{Refuses, poisoned-Refuses, worker_failure-Refuses}
use nekomata.Runtime.Session.Worker.{worker_pass}
use nekomata.Runtime.Session.Worker.Exclusive.{AreExclusive, worker_pass-AreExclusive}
use nekomata.Runtime.Session.Update.{update, update_groups, applied_event, rejected_event}
use nekomata.Runtime.Session.Update.Totals.{update_counts}
use nekomata.Runtime.Session.Update.Tells.{AllTell}
use nekomata.Runtime.Session.Update.Settles.{AreSettled, update_groups-AreSettled}
use nekomata.Runtime.Session.Update.Keeps.{update_groups_keeps}
use nekomata.Runtime.Samples.{
  writable, second_refused, rollback_refused, live, process, loader, generation, ledger, run,
  rejected_message, disk, stream, groups, session,
}

run-applied : run writable ≡ ((run writable).0, (run writable).1, ok tt)
unfolding commit snapshot_entry patchable_entry patch_entry code_of restore_entry codes to_string
run-applied = refl

run-rejected :
    run second_refused
    ≡ ((run second_refused).0, (run second_refused).1, err (runtime_error rejected_message))
unfolding commit snapshot_entry patchable_entry patch_entry code_of restore_entry codes to_string
run-rejected = refl

commit-Applied_example :
    Applied (code_pages writable) (loader writable) process generation (run writable).0
commit-Applied_example =
    commit-Applied (code_pages writable) (loader writable) process (run writable).0 generation
      ledger (run writable).1 run-applied

commit_rejected_example :
    ((x : ℕ) → (run second_refused).0.bytes x ≡ live x) × ((run second_refused).1 ≡ ledger)
commit_rejected_example =
    commit_rejected (code_pages second_refused) (loader second_refused) process
      (run second_refused).0 generation ledger (run second_refused).1 rejected_message run-rejected

run-Poisons :
    Poisons
      (code_pages rollback_refused)
      (loader rollback_refused)
      ledger
      generation
      (run rollback_refused)
unfolding commit snapshot_entry patchable_entry patch_entry code_of restore_entry codes to_string
run-Poisons = (refl, refl, refl, refl, refl)

commit_fatal_example :
    RollbackFails (code_pages rollback_refused) (loader rollback_refused) process generation
    ↔ Poisons
        (code_pages rollback_refused)
        (loader rollback_refused)
        ledger
        generation
        (run rollback_refused)
commit_fatal_example =
    commit_fatal (code_pages rollback_refused) (loader rollback_refused) process generation ledger

process-RollbackFails :
    RollbackFails (code_pages rollback_refused) (loader rollback_refused) process generation
process-RollbackFails = commit_fatal_example.1 run-Poisons

abbrev older : GenerationOfferReference
older = record { sequence = 4; generation_id = codes "a" }

abbrev newer : GenerationOfferReference
newer = record { sequence = 4; generation_id = codes "b" }

newest-AtMost_example :
    OneOf (newest older (newer ∷ [])) (older ∷ newer ∷ [])
    × All (NotNewer (newest older (newer ∷ []))) (older ∷ newer ∷ [])
newest-AtMost_example = newest-AtMost older (newer ∷ [])

abbrev polled : GenerationStream × GenerationStreamObservation
polled = report_malformed stream (codes "bad.ready" ∷ [])

poisoned-Refuses_example :
    Refuses
      (code_pages writable)
      (loader writable)
      disk
      (record session { ledger = record ledger { commit_poisoned = true } })
      (failure (fatal_reload_error incomplete_rollback_message))
poisoned-Refuses_example =
    poisoned-Refuses (code_pages writable) (loader writable) disk
      (record session { ledger = record ledger { commit_poisoned = true } }) refl

worker_failure-Refuses_example :
    Refuses
      (code_pages writable)
      (loader writable)
      disk
      (record session { fatal_worker_error = some filesystem_error })
      (worker_failure filesystem_error)
worker_failure-Refuses_example =
    worker_failure-Refuses (code_pages writable) (loader writable) disk
      (record session { fatal_worker_error = some filesystem_error }) filesystem_error refl refl

worker_pass-AreExclusive_example :
    AreExclusive (worker_pass (code_pages writable) (loader writable) disk process groups).1
worker_pass-AreExclusive_example =
    worker_pass-AreExclusive (code_pages writable) (loader writable) disk groups process
      (refl, (tt, tt))

abbrev events : List UpdateEvent
events =
    applied_event (codes "game") (codes "g4") 2
    ∷ rejected_event (codes "game") (codes "g4") integrity (codes "digest mismatch")
    ∷ []

abbrev updated : Pages × Session (Unit {0}) × Result SessionError (List UpdateEvent)
updated = update (code_pages writable) (loader writable) (λ n. disk) process session

updated-ok : updated ≡ (updated.0, updated.1, ok events)
unfolding update commit snapshot_entry patchable_entry patch_entry code_of restore_entry codes
    to_string check_fatal_error is_empty classify_stream_rejection contains
updated-ok = refl

update_counts_example : (updated.1.ledger.applied ≡ 0 + 1) × (updated.1.ledger.rejected ≡ 0 + 1)
update_counts_example =
    update_counts (code_pages writable) (loader writable) (λ n. disk) process updated.0 session
      updated.1 events updated-ok

abbrev managed : Pages × Ledger × List (ManagedGroup (Unit {0})) × Result Failure (List UpdateEvent)
managed = update_groups (code_pages second_refused) (loader second_refused) process ledger groups

abbrev rejected_events_only : List UpdateEvent
rejected_events_only =
    rejected_event (codes "game") (codes "g4") commit_failed rejected_message
    ∷ rejected_event (codes "game") (codes "g4") integrity (codes "digest mismatch")
    ∷ []

managed-ok : managed ≡ (managed.0, managed.1, managed.2, ok rejected_events_only)
unfolding update_groups commit snapshot_entry patchable_entry patch_entry code_of restore_entry
    codes to_string is_empty classify_transaction_rejection classify_stream_rejection starts_with
    contains
managed-ok = refl

update_groups-AreSettled_example :
    AreSettled groups managed.2 × AllTell groups managed.2 rejected_events_only
update_groups-AreSettled_example =
    update_groups-AreSettled (code_pages second_refused) (loader second_refused) groups managed.2
      process managed.0 ledger managed.1 rejected_events_only (refl, (tt, tt)) managed-ok

update_groups_keeps_example : managed.0.bytes 1003 ≡ live 1003
update_groups_keeps_example =
    update_groups_keeps (code_pages second_refused) (loader second_refused) groups managed.2 process
      managed.0 ledger managed.1 rejected_events_only managed-ok refl 1003
