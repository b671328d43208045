-- ===== src/Wasm/Session.antt =====
-- src/backends/wasm/session.cpp and .hpp, session_error.hpp: the groups of a page.
pub mod Update
pub mod Snapshot
pub mod Loop
use nekomata.Base.{
  ℕ, ◌+◌, Bool, true, false, not, ◌&&◌, List, [], ◌∷◌, ◌++◌, map, Option, none, some, if◌then◌else◌,
  Result, ok, err, ◌>>=◌, ◌>>◌, guard,
}
use nekomata.Text.{Bytes, codes, equal}
use nekomata.Protocol.Scanner.{is_empty}
use nekomata.Runtime.Stream.{less}
use nekomata.Runtime.Session.{
  ReloadErrorCode, no_error, invalid_artifact, incompatible, integrity, object_rejected,
}
use nekomata.Wasm.Candidate.{CandidateError, PreparedModule}
use nekomata.Wasm.Poller.{OfferPoller, poll}
use nekomata.Wasm.Registration.{GroupRegistration, PltSlot, sort_registrations}

-- No artifact is trusted by its spelling: the classes follow the typed errors.
unfoldable pub classify_candidate_error : CandidateError → ReloadErrorCode
classify_candidate_error CandidateError.no_error = no_error
classify_candidate_error CandidateError.invalid_contract = invalid_artifact
classify_candidate_error CandidateError.incompatible = incompatible
classify_candidate_error CandidateError.integrity = integrity
classify_candidate_error CandidateError.not_loaded = object_rejected
classify_candidate_error CandidateError.missing_descriptor = object_rejected
classify_candidate_error CandidateError.invalid_descriptor = object_rejected

-- An observation is known by its number: a tick that was queued for an earlier one finds it gone.
pub record Group : Type 0 where
  pub id : Bytes
  pub poller : OfferPoller
  pub observed : Option ℕ
  pub subscribed : Bool
  pub active : Option PreparedModule
  pub reported_generation : Bytes
  pub last_applied_generation : Bytes

-- `slots` are the page's PLT slots. The two counters number observations and candidates.
pub record ManagedSession : Type 0 where
  pub groups : List Group
  pub applied : ℕ
  pub rejected : ℕ
  pub last_result : Bytes
  pub slots : List PltSlot
  pub next_observation : ℕ
  pub next_candidate : ℕ

-- What `repeat` of the scheduler does for a group.
pub data Scheduling : Type 0 where
  subscribes returns_null : Scheduling
  throws : Bytes → Scheduling

unfoldable pub new_group : GroupRegistration → Group
new_group r = record {
  id = r.group_id;
  poller = record {
    manifest_url = r.manifest_url;
    expected_group = r.group_id;
    expected_contract = r.expected_contract;
    fetching = false;
    last = none;
    pending = none;
  };
  observed = none;
  subscribed = false;
  active = none;
  reported_generation = [];
  last_applied_generation = [];
}

unfoldable pub nonempty_id : GroupRegistration → Result Bytes (Unit {0})
nonempty_id r =
    guard (not (is_empty r.group_id)) (codes "reload_session: expected group must not be empty")

-- The loop over the sorted registrations, behind the first of them.
unfoldable pub check_later_ids : Bytes → List GroupRegistration → Result Bytes (Unit {0})
unfolding nonempty_id
check_later_ids previous [] = ok tt
check_later_ids previous (r ∷ rs) = do
  nonempty_id r
  guard (not (equal previous r.group_id))
      (codes "reload_session: duplicate reload group '" ++ r.group_id ++ codes "'")
  check_later_ids r.group_id rs

unfoldable pub check_ids : List GroupRegistration → Result Bytes (Unit {0})
unfolding nonempty_id check_later_ids
check_ids [] = ok tt
check_ids (r ∷ rs) = do nonempty_id r; check_later_ids r.group_id rs

-- A poller's constructor throws on an empty URL.
unfoldable pub new_groups : List GroupRegistration → Result Bytes (List Group)
unfolding new_group
new_groups [] = ok []
new_groups (r ∷ rs) = do
  guard (not (is_empty r.manifest_url)) (codes "offer_poller: manifest URL must not be empty")
  rest ← new_groups rs
  ok (new_group r ∷ rest)

unfoldable pub new_session : List PltSlot → List GroupRegistration → Result Bytes ManagedSession
unfolding check_ids new_groups
new_session slots registrations = do
  check_ids (sort_registrations registrations)
  groups ← new_groups (sort_registrations registrations)
  ok (record {
    groups = groups;
    applied = 0;
    rejected = 0;
    last_result = [];
    slots = slots;
    next_observation = 0;
    next_candidate = 0;
  })

unfoldable pub disable : Group → Group
disable g = record g { observed = none; subscribed = false }

abbrev pub disabled : Group → Result Bytes Group
disabled g = ok (disable g)

unfoldable pub subscribe : Scheduling → ℕ → Group → Result Bytes Group
subscribe subscribes observation g =
    ok (record g { observed = some observation; subscribed = true })
subscribe returns_null observation g =
    err (codes "reload_session: scheduler returned no subscription")
subscribe (throws problem) observation g = err problem

unfoldable pub enable_from : Option ℕ → (Bytes → Scheduling) → ℕ → Group → Result Bytes Group
unfolding subscribe
enable_from (some current) scheduler observation g = ok g
enable_from none scheduler observation g = subscribe (scheduler g.id) observation g

unfoldable pub enable : (Bytes → Scheduling) → ℕ → Group → Result Bytes Group
unfolding enable_from
enable scheduler observation g = enable_from g.observed scheduler observation g

unfoldable pub enabled_first :
    Group
    → List Group
    → Result Bytes Group
    → List Group × Result Bytes (Unit {0})
    → List Group × Result Bytes (Unit {0})
enabled_first g gs (err e) later = (g ∷ gs, err e)
enabled_first g gs (ok g') later = (g' ∷ later.0, later.1)

-- The loop of `watch()`: groups before the one that throws stay enabled.
unfoldable pub enable_groups :
    (Bytes → Scheduling) → ℕ → List Group → List Group × Result Bytes (Unit {0})
unfolding enabled_first
enable_groups scheduler observation [] = ([], ok tt)
enable_groups scheduler observation (g ∷ gs) =
    enabled_first g gs (enable scheduler observation g)
      (enable_groups scheduler (observation + 1) gs)

count : List Group → ℕ
count [] = 0
count (g ∷ gs) = 1 + count gs

unfoldable pub watch_groups :
    (Bytes → Scheduling) → ManagedSession → List Group → ManagedSession × Result Bytes (Unit {0})
unfolding count
watch_groups scheduler s [] =
    (s, err (codes "reload_session: no registered reload groups; nothing to watch"))
watch_groups scheduler s (g ∷ gs) =
    let (groups, outcome) = enable_groups scheduler s.next_observation (g ∷ gs) in
    (record s { groups = groups; next_observation = s.next_observation + count (g ∷ gs) }, outcome)

unfoldable pub watch :
    (Bytes → Scheduling) → ManagedSession → ManagedSession × Result Bytes (Unit {0})
unfolding watch_groups
watch scheduler s = watch_groups scheduler s s.groups

-- `find_group`, and what the caller does with the group: the binary search for the first group whose
-- id is not less. None where that is another group, or none.
unfoldable pub change_group :
    Bytes → (Group → Result Bytes Group) → List Group → Result Bytes (List Group)
change_group id f [] = err (codes "reload_session: unknown reload group '" ++ id ++ codes "'")
change_group id f (g ∷ gs) =
    let later = change_group id f gs in
    if less g.id id
    then (later >>= λ gs'. ok (g ∷ gs'))
    else if equal g.id id
    then (f g >>= λ g'. ok (g' ∷ gs))
    else err (codes "reload_session: unknown reload group '" ++ id ++ codes "'")

unfoldable pub watch_group :
    (Bytes → Scheduling) → Bytes → ManagedSession → Result Bytes ManagedSession
unfolding change_group enable
watch_group scheduler id s = do
  groups ← change_group id (enable scheduler s.next_observation) s.groups
  ok (record s { groups = groups; next_observation = s.next_observation + 1 })

unfoldable pub unwatch : ManagedSession → ManagedSession
unfolding disable
unwatch s = record s { groups = map disable s.groups }

unfoldable pub unwatch_group : Bytes → ManagedSession → Result Bytes ManagedSession
unfolding change_group disable
unwatch_group id s = do
  groups ← change_group id disabled s.groups
  ok (record s { groups = groups })
