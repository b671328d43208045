-- ===== src/Runtime/Stream/Poll.antt =====
-- One pass of `poll` in src/runtime/generation_stream.cpp.
pub mod Accepted
pub mod Observed
pub mod Malformed
pub mod Quiet
use nekomata.Base.{
  ℕ, ◌+◌, Bool, true, false, not, ◌&&◌, ◌||◌, List, [], ◌∷◌, ◌++◌, Option, none, some, ◌==◌, ltb,
  if◌then◌else◌, Result, ok, err, ◌>>=◌, ◌>>◌, guard,
}
use nekomata.Text.{Bytes, codes, equal}
use nekomata.Protocol.GroupDescriptor.{DescriptorError}
use nekomata.Protocol.GenerationOffer.{
  GenerationOffer, GenerationOfferMember, GenerationOfferReference, GenerationOfferError,
  validate_generation_offer,
}
use nekomata.Protocol.GenerationOffer.Parse.{parse_generation_offer}
use nekomata.Protocol.GenerationOffer.Against.{
  AgainstError, offer_error, descriptor_error, validate_generation_offer_against_descriptor,
}
use nekomata.Protocol.GenerationOffer.Marker.{
  serialize_generation_offer_marker, validate_generation_offer_reference,
}
use nekomata.Runtime.Paths.{join, is_beneath}
use nekomata.Runtime.Stream.{
  Thrown, filesystem_error, descriptor_failure, FileSystem, consumed, GenerationStreamObservation,
  GenerationStream, nothing_observed, newest, scan_markers, about, report_malformed, reject,
}

-- How the checks of an offer end early: in a call of `reject`, by a generation_offer_error that the
-- handler turns into one, or by another exception.
pub data Stop : Type 0 where
  rejected_because : Bytes → Stop
  throws : Thrown → Stop

unfoldable pub from_offer {ℓ} : {A : Type ℓ} → Result GenerationOfferError A → Result Stop A
from_offer (ok a) = ok a
from_offer (err e) = err (rejected_because e.message)

unfoldable pub from_against {ℓ} : {A : Type ℓ} → Result AgainstError A → Result Stop A
from_against (ok a) = ok a
from_against (err (offer_error e)) = err (rejected_because e.message)
from_against (err (descriptor_error e)) = err (throws (descriptor_failure e))

unfoldable pub required {ℓ} : {A : Type ℓ} → Option A → Stop → Result Stop A
required none stop = err stop
required (some a) stop = ok a

module _ (fs : FileSystem) (s : GenerationStream) where
  member_problem : GenerationOfferMember → Bytes → Stop
  member_problem m problem = rejected_because (
      about s
      ++ codes "member '"
      ++ m.member
      ++ codes "' object '"
      ++ m.object_path
      ++ codes "' "
      ++ problem)

  -- The resolved path of one object, once its place and its digest are checked.
  unfoldable pub check_object : Bytes → Bytes → GenerationOfferMember → Result Stop Bytes
  unfolding required member_problem
  check_object generation_directory canonical_directory m =
      let joined = join generation_directory m.object_path in
      let outside = member_problem m (codes "resolves outside the generation directory") in
      do
        resolved ← required (fs.weakly_canonical joined) outside
        guard (is_beneath resolved canonical_directory) outside
        bytes ←
            required (fs.read_file_if_present resolved)
              (member_problem m (codes "is missing or not a regular file"))
        guard (equal (fs.sha256_hex bytes) m.sha256) (
            member_problem m (
              codes "digest mismatch: expected '"
              ++ m.sha256
              ++ codes "', computed '"
              ++ fs.sha256_hex bytes
              ++ codes "'"))
        ok resolved

  unfoldable pub check_objects :
      Bytes → Bytes → List GenerationOfferMember → Result Stop (List Bytes)
  unfolding check_object
  check_objects generation_directory canonical_directory [] = ok []
  check_objects generation_directory canonical_directory (m ∷ ms) = do
    resolved ← check_object generation_directory canonical_directory m
    objects ← check_objects generation_directory canonical_directory ms
    ok (resolved ∷ objects)

  -- The `try` block: the offer and its objects.
  unfoldable pub check_offer :
      GenerationOfferReference → Bytes → Bytes → Bytes → Result Stop (GenerationOffer × List Bytes)
  unfolding from_offer from_against required check_objects
  check_offer selected generation_directory manifest_path manifest_text = do
    offer ← from_offer (parse_generation_offer manifest_text manifest_path)
    from_offer (validate_generation_offer offer manifest_path)
    from_against (validate_generation_offer_against_descriptor offer s.descriptor manifest_path)
    marker ← from_offer (serialize_generation_offer_marker selected)
    from_offer (validate_generation_offer_reference selected offer marker)
    canonical_directory ← required (fs.canonical generation_directory) (throws filesystem_error)
    objects ← check_objects generation_directory canonical_directory offer.members
    ok (offer, objects)

  unfoldable pub observe :
      GenerationOfferReference
      → Bytes
      → Result Stop (GenerationOffer × List Bytes)
      → Result Thrown (GenerationStream × GenerationStreamObservation)
  observe selected generation_directory (err (rejected_because message)) =
      ok (reject s selected message)
  observe selected generation_directory (err (throws e)) = err e
  observe selected generation_directory (ok (offer, objects)) = ok (
    record s { cursor = selected.sequence },
    record {
      status = consumed;
      sequence = selected.sequence;
      generation_id = selected.generation_id;
      message = [];
      offer = offer;
      generation_directory = generation_directory;
      objects = objects;
    },
  )

  unfoldable pub poll_selected :
      GenerationOfferReference → Result Thrown (GenerationStream × GenerationStreamObservation)
  unfolding check_offer observe
  poll_selected selected =
      let publication = join s.root s.descriptor.publication_key in
      let generation_directory =
        join (join publication (codes "generations")) selected.generation_id in
      let manifest_path = join generation_directory (codes "manifest") in
      elim (fs.read_file_if_present manifest_path) [
        | none ↦ ok (
            reject s selected (
              about s
              ++ codes "generation '"
              ++ selected.generation_id
              ++ codes "' has no readable manifest at '"
              ++ manifest_path
              ++ codes "'"))
        | some text ↦
            observe selected generation_directory
              (check_offer selected generation_directory manifest_path text)
      ]

  unfoldable pub poll_markers :
      List GenerationOfferReference × List Bytes
      → Result Thrown (GenerationStream × GenerationStreamObservation)
  unfolding poll_selected
  poll_markers ([], malformed) = ok (report_malformed s malformed)
  poll_markers (r ∷ rs, malformed) = poll_selected (newest r rs)

  unfoldable pub poll : Result Thrown (GenerationStream × GenerationStreamObservation)
  unfolding poll_markers
  poll =
      let offers = join (join s.root s.descriptor.publication_key) (codes "offers") in
      if fs.is_directory offers
      then (elim (fs.list_directory offers) [
        | none ↦ ok (s, nothing_observed)
        | some names ↦ poll_markers (scan_markers s.cursor names)
      ])
      else ok (s, nothing_observed)
