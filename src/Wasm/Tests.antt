-- ===== src/Wasm/Tests.antt =====
-- A page with one group, from its registration to the first active module.
use nekomata.Base.{◌≡◌, refl, ◌↔◌, true, false, [], ◌∷◌, map, none, some, ok, All, ◌+◌}
use nekomata.Text.{Bytes, codes, member_of}
use nekomata.Protocol.Scanner.{is_empty}
use nekomata.Protocol.WasmOffer.{WasmOffer}
use nekomata.Protocol.WasmOffer.Print.{render}
use nekomata.Wasm.Module.{ModuleDescriptor, ModuleContract, ModuleLoadResult, ModuleLoadStatus}
use nekomata.Wasm.Candidate.{verify_descriptor, has_nul}
use nekomata.Wasm.Candidate.Contract.{Fulfils, verify_descriptor_iff}
use nekomata.Wasm.Poller.{OfferPoller, ManifestText, delivered}
use nekomata.Wasm.Poller.Advances.{Advances, delivered-Advances}
use nekomata.Wasm.Registration.{
  GroupRecord, GroupRegistration, PltSlot, sort_registrations, read_group_records,
}
use nekomata.Wasm.Session.{
  ManagedSession, Scheduling, subscribes, new_group, new_groups, check_ids, new_session, watch,
}
use nekomata.Wasm.Session.Update.{update}
use nekomata.Wasm.Session.Update.Settled.{update-update}
use nekomata.Wasm.Session.Update.Counts.{update-Counted, Announces}
use nekomata.Wasm.Session.Update.Due.{NotDue}
use nekomata.Runtime.Session.Update.Counts.{applied_events, rejected_events}
use nekomata.Wasm.Session.Loop.{
  tick, fetched, loaded, Reach, here, next, watches, ticks, fetches, loads, updates,
}
use nekomata.Wasm.Session.Loop.Host.{IsHosted, Reach-IsHosted}
use nekomata.Wasm.Registration.Discovered.{read_group_records-starts}
use nekomata.Wasm.Page.{new_browser_session}
use nekomata.Wasm.Page.Callable.{AreCalling, new_browser_session-AreCalling}

abbrev host : ModuleContract
host = record { abi_id = codes "v1"; entries = codes "tick" ∷ []; sha256 = [] }

abbrev registration : GroupRegistration
registration = record {
  group_id = codes "game";
  manifest_url = codes "/reload/latest";
  expected_contract = host;
}

abbrev slot : PltSlot
slot = record { address = 64; group = codes "game"; entry = codes "tick"; target = none }

abbrev start : ManagedSession
start = record {
  groups = new_group registration ∷ [];
  applied = 0;
  rejected = 0;
  last_result = [];
  slots = slot ∷ [];
  next_observation = 0;
  next_candidate = 0;
}

starts : new_session (slot ∷ []) (registration ∷ []) ≡ ok start
unfolding new_session check_ids new_groups sort_registrations is_empty codes
starts = refl

abbrev game : GroupRecord
game = record {
  address = 32;
  group_id = codes "game";
  manifest_url = codes "/reload/latest";
  abi_id = codes "v1";
  entries = codes "tick" ∷ [];
}

discovered : read_group_records (game ∷ []) ≡ ok (registration ∷ [])
unfolding read_group_records codes is_empty has_nul member_of
discovered = refl

page : new_browser_session (game ∷ []) (slot ∷ []) ≡ ok start
unfolding new_browser_session codes is_empty has_nul member_of
page = refl

abbrev offer : WasmOffer
offer = record {
  group_id = codes "game";
  sequence = 3;
  generation_id = codes "g-3";
  abi_id = codes "v1";
  artifact_path = codes "modules/3-g-3.wasm";
  sha256 = codes "0123456789abcdef0123456789abcdef0123456789abcdef0123456789abcdef";
  entries = codes "tick" ∷ [];
}

abbrev manifest : ManifestText
manifest = record { fetched = true; text = render offer; message = [] }

abbrev descriptor : ModuleDescriptor
descriptor = record {
  version = 1;
  size = 20;
  abi_id = some (codes "v1");
  entry_count = 1;
  entries = some λ index. record { name = some (codes "tick"); address = some (4096 + index) };
}

abbrev module_loaded : ModuleLoadResult
module_loaded = record {
  image = some (record { descriptor = some descriptor; resident = false });
  message = [];
  status = ModuleLoadStatus.loaded;
}

abbrev scheduler : Bytes → Scheduling
scheduler id = subscribes

prepared : ManagedSession
prepared =
    loaded 0 module_loaded (fetched (codes "game") manifest (tick 0 (watch scheduler start).0))

prepared-Reach : Reach start prepared
unfolding prepared
prepared-Reach =
    next (next (next (next here (watches scheduler)) (ticks 0)) (fetches (codes "game") manifest))
      (loads 0 module_loaded)

active : ManagedSession
active = (update prepared).0

active-Reach : Reach start active
unfolding active
active-Reach = next prepared-Reach updates

verify_descriptor_iff_example :
    (verify_descriptor host descriptor ≡ ok (record { name = codes "tick"; address = 4096 } ∷ []))
    ↔ Fulfils host descriptor (record { name = codes "tick"; address = 4096 } ∷ [])
verify_descriptor_iff_example =
    verify_descriptor_iff host descriptor (record { name = codes "tick"; address = 4096 } ∷ [])

Reach-IsHosted_example : All (IsHosted (registration ∷ [])) active.groups
Reach-IsHosted_example = Reach-IsHosted (slot ∷ []) (registration ∷ []) starts active-Reach

update-update_example :
    All NotDue (update prepared).0.groups × (update (update prepared).0 ≡ ((update prepared).0, []))
update-update_example = update-update prepared

update-Counted_example :
    Announces prepared.groups (update prepared).1
    × ((update prepared).0.applied ≡ prepared.applied + applied_events (update prepared).1)
    × ((update prepared).0.rejected ≡ prepared.rejected + rejected_events (update prepared).1)
update-Counted_example = update-Counted prepared

abbrev poller : OfferPoller
poller = record (new_group registration).poller { fetching = true }

delivered-Advances_example :
    Advances 0 (record poller { fetching = false }) manifest (delivered 0 poller manifest)
delivered-Advances_example = delivered-Advances 0 poller manifest

new_browser_session-AreCalling_example : AreCalling active
new_browser_session-AreCalling_example =
    new_browser_session-AreCalling (game ∷ []) (slot ∷ []) page active-Reach

read_group_records-starts_example :
    (s : ManagedSession) × (new_session (slot ∷ []) (registration ∷ []) ≡ ok s)
    × (s.groups ≡ map new_group (registration ∷ []))
    × (s.slots ≡ slot ∷ [])
read_group_records-starts_example = read_group_records-starts (slot ∷ []) (game ∷ []) discovered
