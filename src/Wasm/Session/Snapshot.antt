-- ===== src/Wasm/Session/Snapshot.antt =====
-- `snapshot` and `current` of src/backends/wasm/session.cpp.
use nekomata.Base.{
  ℕ, Bool, true, false, List, [], ◌∷◌, map, Option, none, some, if◌then◌else◌, Result, ok, err,
  ◌++◌,
}
use nekomata.Text.{Bytes, codes, equal}
use nekomata.Protocol.WasmOffer.{WasmOffer}
use nekomata.Runtime.Stream.{less}
use nekomata.Runtime.Session.{
  GroupState, idle, preparing, ready, failed, GroupSnapshot, SessionSnapshot,
}
use nekomata.Wasm.Candidate.{CandidateStatus, PreparedModule}
use nekomata.Wasm.Poller.{Pending}
use nekomata.Wasm.Session.{Group, ManagedSession}

is_observed : Option ℕ → Bool
is_observed none = false
is_observed (some observation) = true

sequence_of : Option WasmOffer → ℕ
sequence_of none = 0
sequence_of (some accepted) = accepted.sequence

undecided : Bool → GroupState
undecided true = preparing
undecided false = idle

status_state : Bool → CandidateStatus → GroupState
unfolding undecided
status_state enabled CandidateStatus.loading = undecided enabled
status_state enabled CandidateStatus.ready = ready
status_state enabled CandidateStatus.rejected = failed
status_state enabled CandidateStatus.cancelled = undecided enabled
status_state enabled CandidateStatus.activated = undecided enabled

unfoldable pub group_state : Bool → Option Pending → GroupState
unfolding status_state undecided
group_state enabled none = undecided enabled
group_state enabled (some pending) = status_state enabled pending.candidate.status

unfoldable pub group_snapshot : Group → GroupSnapshot
unfolding is_observed sequence_of group_state
group_snapshot g = record {
  group_id = g.id;
  enabled = is_observed g.observed;
  state = group_state (is_observed g.observed) g.poller.pending;
  observed_sequence = sequence_of g.poller.last;
  last_applied_generation = g.last_applied_generation;
}

unfoldable pub snapshot : ManagedSession → SessionSnapshot
unfolding group_snapshot
snapshot s = record {
  applied_count = s.applied;
  rejected_count = s.rejected;
  last_result = s.last_result;
  groups = map group_snapshot s.groups;
  watched_paths = [];
}

-- The binary search of find_group, for the active module.
unfoldable pub current_in : Bytes → List Group → Result Bytes (Option PreparedModule)
current_in id [] = err (codes "reload_session: unknown reload group '" ++ id ++ codes "'")
current_in id (g ∷ gs) =
    if less g.id id
    then current_in id gs
    else if equal g.id id
    then ok g.active
    else err (codes "reload_session: unknown reload group '" ++ id ++ codes "'")

unfoldable pub current : Bytes → ManagedSession → Result Bytes (Option PreparedModule)
unfolding current_in
current id s = current_in id s.groups
