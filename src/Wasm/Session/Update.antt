-- ===== src/Wasm/Session/Update.antt =====
-- `update` of src/backends/wasm/session.cpp.
pub mod Due
pub mod Settled
pub mod Counts
pub mod Slots
use nekomata.Base.{
  ℕ, ◌+◌, Bool, true, false, not, ◌&&◌, ◌||◌, List, [], ◌∷◌, ◌++◌, map, Option, none, some, length,
  if◌then◌else◌,
}
use nekomata.Text.{Bytes, codes, equal, to_string}
use nekomata.Protocol.WasmOffer.{WasmOffer}
use nekomata.Runtime.Session.{ReloadErrorCode, object_rejected, UpdateEvent, UpdateStatus}
use nekomata.Wasm.Candidate.{
  Candidate, CandidateStatus, PreparedModule, Activation, activate, is_ready,
}
use nekomata.Wasm.Poller.{OfferPoller, Pending}
use nekomata.Wasm.Registration.{PltSlot, apply_plt_slots}
use nekomata.Wasm.Session.{Group, ManagedSession, classify_candidate_error}

-- What the first pass keeps of a group that has something to report.
pub record GroupTransaction : Type 0 where
  pub event : UpdateEvent
  pub reported_generation : Bytes
  pub applied_generation : Bytes
  pub last_result : Bytes
  pub refusal_result : Bytes

unfoldable pub is_decided : CandidateStatus → Bool
is_decided CandidateStatus.loading = false
is_decided CandidateStatus.ready = true
is_decided CandidateStatus.rejected = true
is_decided CandidateStatus.cancelled = false
is_decided CandidateStatus.activated = false

-- An event that is refused until its candidate has been activated.
unfoldable pub refused_event : Group → WasmOffer → ReloadErrorCode → Bytes → UpdateEvent
refused_event g accepted code message = record {
  status = UpdateStatus.rejected;
  code = code;
  group_id = g.id;
  generation_id = accepted.generation_id;
  message = message;
  redirected_function_count = 0;
}

abbrev refusal : Bytes
refusal = codes "activation refused a ready candidate"

-- The transaction of a group whose candidate is decided.
unfoldable pub transaction_of : Group → WasmOffer → Candidate → GroupTransaction
unfolding refused_event is_ready
transaction_of g accepted c =
    if is_ready c.status
    then record {
      event = refused_event g accepted object_rejected refusal;
      reported_generation = accepted.generation_id;
      applied_generation = accepted.generation_id;
      last_result =
          codes "applied generation '"
          ++ accepted.generation_id
          ++ codes "': "
          ++ to_string (length accepted.entries)
          ++ codes " function(s)";
      refusal_result = refusal;
    }
    else record {
      event = refused_event g accepted (classify_candidate_error c.error) c.message;
      reported_generation = accepted.generation_id;
      applied_generation = [];
      last_result = c.message;
      refusal_result = [];
    }

-- What the first pass tests behind `observed`.
unfoldable pub decided_transaction :
    Group → Option Pending → Option WasmOffer → Option GroupTransaction
unfolding transaction_of
decided_transaction g none accepted = none
decided_transaction g (some pending) none = none
decided_transaction g (some pending) (some accepted) =
    if not (equal accepted.generation_id g.reported_generation)
      && is_decided pending.candidate.status
    then some (transaction_of g accepted pending.candidate)
    else none

observed_transaction : Option ℕ → Group → Option GroupTransaction
unfolding decided_transaction
observed_transaction none g = none
observed_transaction (some observation) g = decided_transaction g g.poller.pending g.poller.last

unfoldable pub prepare_transaction : Group → Option GroupTransaction
unfolding observed_transaction
prepare_transaction g = observed_transaction g.observed g

-- What the second pass has of a group: the group, the slots, its event and the session's result.
pub record Committed : Type 0 where
  pub group : Group
  pub slots : List PltSlot
  pub event : UpdateEvent
  pub last_result : Bytes

unfoldable pub count : Option PreparedModule → ℕ
count none = 0
count (some m) = length m.entries

unfoldable pub redirect : Bytes → Option PreparedModule → List PltSlot → List PltSlot
redirect id none slots = slots
redirect id (some m) slots = apply_plt_slots id m slots

-- What follows from the attempt to activate a ready candidate.
unfoldable pub after_activation :
    GroupTransaction → List PltSlot → Group → Pending → Activation → Committed
unfolding count redirect
after_activation t slots g pending a =
    let g' = record g {
      poller = record g.poller { pending = some (record pending { candidate = a.candidate }) };
      active = a.current;
      reported_generation = t.reported_generation;
    } in
    if a.done
    then record {
      group = record g' { last_applied_generation = t.applied_generation };
      slots = redirect g.id a.current slots;
      event = record t.event {
        status = UpdateStatus.applied;
        code = ReloadErrorCode.no_error;
        message = [];
        redirected_function_count = count a.current;
      };
      last_result = t.last_result;
    }
    else record { group = g'; slots = slots; event = t.event; last_result = t.refusal_result }

unfoldable pub conclude_rejected : GroupTransaction → List PltSlot → Group → Committed
conclude_rejected t slots g = record {
  group = record g { reported_generation = t.reported_generation };
  slots = slots;
  event = t.event;
  last_result = t.last_result;
}

unfoldable pub commit_pending : GroupTransaction → List PltSlot → Group → Option Pending → Committed
unfolding after_activation conclude_rejected is_ready
commit_pending t slots g none = conclude_rejected t slots g
commit_pending t slots g (some pending) =
    if is_ready pending.candidate.status
    then after_activation t slots g pending (activate g.active pending.candidate)
    else conclude_rejected t slots g

-- One turn of the second loop. Each transaction has its own group and candidate.
unfoldable pub commit_transaction : GroupTransaction → List PltSlot → Group → Committed
unfolding commit_pending
commit_transaction t slots g = commit_pending t slots g g.poller.pending

unfoldable pub count_event : UpdateStatus → ManagedSession → ManagedSession
count_event UpdateStatus.applied s = record s { applied = s.applied + 1 }
count_event UpdateStatus.rejected s = record s { rejected = s.rejected + 1 }

unfoldable pub note : Committed → ManagedSession → ManagedSession
unfolding count_event
note c s = record (count_event c.event.status s) { last_result = c.last_result; slots = c.slots }

-- The second pass, over the groups with the transactions of the first.
unfoldable pub commit_groups :
    ManagedSession
    → List (Group × Option GroupTransaction)
    → ManagedSession × List Group × List UpdateEvent
unfolding note
commit_groups s [] = (s, [], [])
commit_groups s ((g, none) ∷ gs) =
    let (s', groups, events) = commit_groups s gs in (s', g ∷ groups, events)
commit_groups s ((g, some t) ∷ gs) =
    let c = commit_transaction t s.slots g in
    let (s', groups, events) = commit_groups (note c s) gs in
    (s', c.group ∷ groups, c.event ∷ events)

unfoldable pub update : ManagedSession → ManagedSession × List UpdateEvent
unfolding commit_groups prepare_transaction
update s =
    let (s', groups, events) = commit_groups s (map (λ g. (g, prepare_transaction g)) s.groups) in
    (record s' { groups = groups }, events)
