-- ===== src/Runtime/Publisher.antt =====
-- `publish_generation` of src/runtime/publisher.cpp and .hpp.
pub mod Sequence
pub mod Staged
pub mod Released
mod Tests
use nekomata.Base.{
  ℕ, ◌+◌, ◌%◌, Bool, true, false, not, ◌&&◌, ◌||◌, List, [], ◌∷◌, ◌++◌, Option, none, some, max,
  if◌then◌else◌, Result, ok, err, ◌>>=◌, ◌>>◌, guard, take,
}
use nekomata.Text.{Bytes, codes, ends_with, uint64_limit}
use nekomata.Protocol.Scanner.{is_empty}
use nekomata.Protocol.GenerationOffer.{
  GenerationOffer, GenerationOfferMember, GenerationOfferReference, GenerationOfferError,
  validate_generation_offer,
}
use nekomata.Protocol.GenerationOffer.Print.{serialize_generation_offer}
use nekomata.Protocol.GenerationOffer.Marker.{
  parse_generation_offer_marker, serialize_generation_offer_marker,
}
use nekomata.Runtime.Paths.{join}
use nekomata.Runtime.Stream.{FileSystem}

pub record PublishMember : Type 0 where
  pub member : Bytes
  pub object_file : Bytes
  pub source_identity : Bytes
  pub build_information : Bytes

pub record PublishRequest : Type 0 where
  pub generation_root : Bytes
  pub publication_key : Bytes
  pub group_id : Bytes
  pub compatibility_id : Bytes
  pub abi_id : Bytes
  pub members : List PublishMember
  pub changed_inputs : List Bytes

pub data PublishError : Type 0 where
  runtime_error : Bytes → PublishError
  offer_error : GenerationOfferError → PublishError
  filesystem_error : PublishError

-- The calls that change the file system, in order.
pub data FileOperation : Type 0 where
  create_directories create_parent_directories remove_all : Bytes → FileOperation
  write_required_file rename : Bytes → Bytes → FileOperation

-- What a marker that parses does to the sequence; the sum is a std::uint64_t.
unfoldable pub raise_to : ℕ → Result GenerationOfferError GenerationOfferReference → ℕ
raise_to next (ok r) = max next ((r.sequence + 1) % uint64_limit)
raise_to next (err e) = next

-- One turn of the loop of `next_sequence`.
unfoldable pub raised : ℕ → Bytes → ℕ
unfolding raise_to
raised next name =
    if ends_with name (codes ".ready")
    then raise_to next (parse_generation_offer_marker name name)
    else next

unfoldable pub next_sequence_from : ℕ → List Bytes → ℕ
unfolding raised
next_sequence_from next [] = next
next_sequence_from next (name ∷ names) = next_sequence_from (raised next name) names

unfoldable pub next_sequence : FileSystem → Bytes → Result PublishError ℕ
unfolding next_sequence_from
next_sequence fs offers =
    if fs.is_directory offers
    then (elim (fs.list_directory offers) [
      | none ↦ err filesystem_error
      | some names ↦ ok (next_sequence_from 1 names)
    ])
    else ok 1

unfoldable pub required_object : FileSystem → Bytes → Bytes → Result PublishError Bytes
required_object fs path problem = elim (fs.read_file_if_present path) [
  | none ↦ err (runtime_error problem)
  | some bytes ↦ ok bytes
]

-- The member records of the manifest.
unfoldable pub describe_members :
    FileSystem → List PublishMember → Result PublishError (List GenerationOfferMember)
unfolding required_object
describe_members fs [] = ok []
describe_members fs (m ∷ ms) = do
  bytes ← required_object fs m.object_file (
      codes "cannot read member object '"
      ++ m.member
      ++ codes "' at '"
      ++ m.object_file
      ++ codes "'")
  rest ← describe_members fs ms
  ok (
      record {
        member = m.member;
        object_path = codes "objects/" ++ m.member ++ codes ".o";
        sha256 = fs.sha256_hex bytes;
        source_identity = m.source_identity;
        build_information = m.build_information;
      }
      ∷ rest)

unfoldable pub identity_input : List GenerationOfferMember → Bytes
identity_input [] = []
identity_input (m ∷ ms) = m.sha256 ++ identity_input ms

unfoldable pub offer_for :
    FileSystem → PublishRequest → ℕ → List GenerationOfferMember → GenerationOffer
unfolding identity_input
offer_for fs request sequence members = record {
  group_id = request.group_id;
  sequence = sequence;
  generation_id = codes "g-" ++ take 16 (fs.sha256_hex (identity_input members));
  compatibility_id = request.compatibility_id;
  abi_id = request.abi_id;
  members = members;
  changed_inputs = request.changed_inputs;
}

unfoldable pub stage : Bytes → Bytes → Bytes → List FileOperation
stage staging relative bytes =
    create_parent_directories (join staging relative)
    ∷ write_required_file (join staging relative) bytes
    ∷ []

unfoldable pub stage_members :
    FileSystem → Bytes → List PublishMember → Result PublishError (List FileOperation)
unfolding required_object stage
stage_members fs staging [] = ok []
stage_members fs staging (m ∷ ms) = do
  bytes ←
      required_object fs m.object_file
        (codes "member object '" ++ m.member ++ codes "' vanished while publishing")
  rest ← stage_members fs staging ms
  ok (stage staging (codes "objects/" ++ m.member ++ codes ".o") bytes ++ rest)

from_offer {ℓ} : {A : Type ℓ} → Result GenerationOfferError A → Result PublishError A
from_offer (ok a) = ok a
from_offer (err e) = err (offer_error e)

-- What a publication leaves: the offer, its manifest and marker, and the calls in order.
pub record Publication : Type 0 where
  pub offer : GenerationOffer
  pub manifest : Bytes
  pub marker : Bytes
  pub operations : List FileOperation

abbrev pub no_publish_members : List PublishMember → Bool
no_publish_members [] = true
no_publish_members (m ∷ ms) = false

unfoldable pub is_usable : PublishRequest → Bool
unfolding is_empty
is_usable r = not (
    is_empty r.publication_key
    || (is_empty r.group_id
        || (is_empty r.compatibility_id || (is_empty r.abi_id || no_publish_members r.members))))

-- The calls that release a staged generation: its directory first, the marker last.
unfoldable pub release : Bytes → Bytes → Bytes → Bytes → List FileOperation
release stream staging generation_id marker =
    let directory = join (join stream (codes "generations")) generation_id in
    let offers = join stream (codes "offers") in
    let placeholder = join offers (codes "offer.staging") in
    remove_all directory
    ∷ rename staging directory
    ∷ write_required_file placeholder []
    ∷ rename placeholder (join offers marker)
    ∷ []

-- `nonce` names the staging directory. The lock makes the calls of one publication one step.
unfoldable pub publish_generation :
    FileSystem → Bytes → PublishRequest → Result PublishError Publication
unfolding next_sequence describe_members offer_for stage_members from_offer release is_usable stage
publish_generation fs nonce request =
    let stream = join request.generation_root request.publication_key in
    let staging = join stream (codes ".staging-" ++ nonce) in
    do
      guard (is_usable request) (
          runtime_error (
            codes "publish request needs a publication key, group, compatibility and ABI "
            ++ codes "identities, and at least one member"))
      sequence ← next_sequence fs (join stream (codes "offers"))
      members ← describe_members fs request.members
      from_offer (
          validate_generation_offer (offer_for fs request sequence members)
            (codes "publisher request"))
      manifest ← from_offer (serialize_generation_offer (offer_for fs request sequence members))
      staged ← stage_members fs staging request.members
      marker ← from_offer (
          serialize_generation_offer_marker (record {
            sequence = sequence;
            generation_id = (offer_for fs request sequence members).generation_id;
          }))
      ok (record {
        offer = offer_for fs request sequence members;
        manifest = manifest;
        marker = marker;
        operations =
            (create_directories (join stream (codes "offers"))
              ∷ create_directories (join stream (codes "generations"))
              ∷ create_directories staging
              ∷ [])
            ++ staged
            ++ stage staging (codes "manifest") manifest
            ++ release stream staging (offer_for fs request sequence members).generation_id marker;
      })
