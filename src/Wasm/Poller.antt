-- ===== src/Wasm/Poller.antt =====
-- src/backends/wasm/offer_poller.cpp and .hpp, with the manifest of manifest_fetcher.hpp: one
-- manifest URL, and the candidate of the newest accepted offer.
pub mod Host
pub mod Advances
use nekomata.Base.{
  ℕ, Bool, true, false, not, ◌&&◌, ◌||◌, List, [], ◌∷◌, ◌++◌, Option, none, some, ◌==◌,
  if◌then◌else◌, Result, ok, err,
}
use nekomata.Text.{Bytes, codes, equal, equal_texts, to_string}
use nekomata.Protocol.Scanner.{is_empty}
use nekomata.Protocol.WasmOffer.{WasmOffer, WasmOfferError}
use nekomata.Protocol.WasmOffer.Parse.{parse_wasm_offer}
use nekomata.Protocol.WasmOffer.Ordering.{
  WasmOfferOrdering, supersede, duplicate, stale, conflict, compare_wasm_offers,
}
use nekomata.Wasm.Module.{ModuleContract}
use nekomata.Wasm.Candidate.{Candidate, incompatible, rejected_candidate, new_candidate}

pub record ManifestText : Type 0 where
  pub fetched : Bool
  pub text : Bytes
  pub message : Bytes

pub data OfferEventKind : Type 0 where
  offer_accepted offer_ignored offer_conflict manifest_invalid : OfferEventKind
  manifest_fetch_failed : OfferEventKind

pub record OfferEvent : Type 0 where
  pub kind : OfferEventKind
  pub message : Bytes

-- A candidate has an identity: the loader's completion reaches it as long as it is pending.
pub record Pending : Type 0 where
  pub identity : ℕ
  pub candidate : Candidate

pub record OfferPoller : Type 0 where
  pub manifest_url : Bytes
  pub expected_group : Bytes
  pub expected_contract : ModuleContract
  pub fetching : Bool
  pub last : Option WasmOffer
  pub pending : Option Pending

-- The URL up to its last slash, which is part of it.
unfoldable pub up_to_slash : Bytes → Bytes × Bool
up_to_slash [] = ([], false)
up_to_slash (c ∷ cs) =
    let (base, found) = up_to_slash cs in
    if found || c == b'/' then (c ∷ base, true) else ([], false)

unfoldable pub resolve_artifact_url : Bytes → Bytes → Bytes
unfolding up_to_slash
resolve_artifact_url manifest_url artifact_path = (up_to_slash manifest_url).0 ++ artifact_path

unfoldable pub contract_of : WasmOffer → ModuleContract
contract_of offer = record { abi_id = offer.abi_id; entries = offer.entries; sha256 = offer.sha256 }

-- The host contract is there, and the offer departs from it.
unfoldable pub departs : ModuleContract → ModuleContract → Bool
departs expected contract =
    not (is_empty expected.abi_id)
    && (not (equal contract.abi_id expected.abi_id)
        || not (equal_texts contract.entries expected.entries))

unfoldable pub candidate_for : OfferPoller → WasmOffer → Candidate
unfolding departs contract_of resolve_artifact_url
candidate_for p offer =
    if departs p.expected_contract (contract_of offer)
    then (rejected_candidate incompatible
        (codes "offer ABI or entry membership does not match the registered host contract"))
    else new_candidate (resolve_artifact_url p.manifest_url offer.artifact_path) (contract_of offer)

last_sequence : Option WasmOffer → ℕ
last_sequence none = 0
last_sequence (some last) = last.sequence

last_generation : Option WasmOffer → Bytes
last_generation none = []
last_generation (some last) = last.generation_id

event : OfferEventKind → Bytes → OfferEvent
event kind message = record { kind = kind; message = message }

-- The `switch` on the ordering, and what follows it. The new candidate has this identity.
unfoldable pub on_ordering :
    ℕ → OfferPoller → WasmOffer → WasmOfferOrdering → OfferPoller × OfferEvent
unfolding candidate_for last_sequence last_generation event
on_ordering identity p offer stale = (
  p,
  event offer_ignored (
      codes "stale sequence "
      ++ to_string offer.sequence
      ++ codes " behind "
      ++ to_string (last_sequence p.last)),
)
on_ordering identity p offer duplicate =
    (p, event offer_ignored (codes "duplicate generation '" ++ offer.generation_id ++ codes "'"))
on_ordering identity p offer conflict = (
  p,
  event offer_conflict (
      codes "sequence "
      ++ to_string offer.sequence
      ++ codes " claimed by generations '"
      ++ last_generation p.last
      ++ codes "' and '"
      ++ offer.generation_id
      ++ codes "'"),
)
on_ordering identity p offer supersede = (
  record p {
    pending = some (record { identity = identity; candidate = candidate_for p offer });
    last = some offer;
  },
  event offer_accepted (
      codes "generation '"
      ++ offer.generation_id
      ++ codes "' at sequence "
      ++ to_string offer.sequence),
)

unfoldable pub on_offer : ℕ → OfferPoller → WasmOffer → OfferPoller × OfferEvent
unfolding on_ordering event
on_offer identity p offer =
    if not (is_empty p.expected_group) && not (equal offer.group_id p.expected_group)
    then (
      p,
      event offer_ignored (
          codes "offer group '"
          ++ offer.group_id
          ++ codes "' does not match watched group '"
          ++ p.expected_group
          ++ codes "'"),
    )
    else on_ordering identity p offer (compare_wasm_offers offer p.last)

on_parsed : ℕ → OfferPoller → Result WasmOfferError WasmOffer → OfferPoller × OfferEvent
unfolding on_offer event
on_parsed identity p (err e) = (p, event manifest_invalid e.message)
on_parsed identity p (ok offer) = on_offer identity p offer

-- `state::handle`: the state, and the one event that it delivers.
unfoldable pub handle : ℕ → OfferPoller → ManifestText → OfferPoller × OfferEvent
unfolding on_parsed event
handle identity p m =
    if not m.fetched
    then (
      p,
      event manifest_fetch_failed
          (if is_empty m.message then codes "manifest fetch failed" else m.message),
    )
    else on_parsed identity p (parse_wasm_offer m.text p.manifest_url)

-- `poll`: whether a fetch starts.
unfoldable pub poll : OfferPoller → OfferPoller × Bool
poll p = if p.fetching then (p, false) else (record p { fetching = true }, true)

-- The completion that `poll` passes to the fetcher.
unfoldable pub delivered : ℕ → OfferPoller → ManifestText → OfferPoller × OfferEvent
unfolding handle
delivered identity p m = handle identity (record p { fetching = false }) m

pub data LogLevel : Type 0 where
  info warn : LogLevel

-- The level at which log_offer_event reports an event.
unfoldable pub level_of : OfferEventKind → LogLevel
level_of offer_accepted = info
level_of offer_ignored = info
level_of offer_conflict = warn
level_of manifest_invalid = warn
level_of manifest_fetch_failed = warn

equal_kind : OfferEventKind → OfferEventKind → Bool
equal_kind offer_accepted offer_accepted = true
equal_kind offer_ignored offer_ignored = true
equal_kind offer_conflict offer_conflict = true
equal_kind manifest_invalid manifest_invalid = true
equal_kind manifest_fetch_failed manifest_fetch_failed = true
equal_kind _ _ = false

repeats : Option OfferEvent → OfferEvent → Bool
unfolding equal_kind
repeats none e = false
repeats (some previous) e = equal_kind previous.kind e.kind && equal previous.message e.message

-- The wrapper of suppress_repeats: its previous event, and what goes on to the sink.
unfoldable pub suppress_repeats :
    Option OfferEvent → OfferEvent → Option OfferEvent × List OfferEvent
unfolding repeats
suppress_repeats previous e = if repeats previous e then (previous, []) else (some e, e ∷ [])
