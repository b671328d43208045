-- ===== src/Runtime/Stream.antt =====
-- src/runtime/generation_stream.cpp and .hpp: observing a group's publication stream.
pub mod Newest
pub mod Poll
use nekomata.Base.{
  ℕ, ◌+◌, Bool, true, false, not, ◌&&◌, ◌||◌, List, [], ◌∷◌, ◌++◌, Option, none, some, ◌==◌, ltb,
  if◌then◌else◌, Result, ok, err, ◌>>=◌, ◌>>◌, guard,
}
use nekomata.Text.{Bytes, codes, equal, ends_with, member_of}
use nekomata.Protocol.GroupDescriptor.{GroupDescriptor, DescriptorError, validate_group_descriptor}
use nekomata.Protocol.GenerationOffer.{GenerationOffer, GenerationOfferReference}
use nekomata.Protocol.GenerationOffer.Parse.{empty_offer, parse_generation_offer}
use nekomata.Protocol.GenerationOffer.Against.{
  AgainstError, offer_error, descriptor_error, validate_generation_offer_against_descriptor,
}
use nekomata.Protocol.GenerationOffer.Marker.{
  parse_generation_offer_marker, serialize_generation_offer_marker,
  validate_generation_offer_reference,
}
use nekomata.Runtime.Paths.{join, is_beneath}

-- The file system while one poll runs, and the digest of src/base/sha256.hpp. `list_directory` is
-- none where the iteration throws; the others are none on an error code or exception.
pub record FileSystem : Type 0 where
  pub absolute : Bytes → Option Bytes
  pub is_regular_file : Bytes → Bool
  pub rename : Bytes → Bytes → Bool
  pub lexically_normal : Bytes → Bytes
  pub is_directory : Bytes → Bool
  pub list_directory : Bytes → Option (List Bytes)
  pub read_file_if_present : Bytes → Option Bytes
  pub canonical : Bytes → Option Bytes
  pub weakly_canonical : Bytes → Option Bytes
  pub sha256_hex : Bytes → Bytes

pub data StreamStatus : Type 0 where
  idle consumed rejected : StreamStatus

pub record GenerationStreamObservation : Type 0 where
  pub status : StreamStatus
  pub sequence : ℕ
  pub generation_id : Bytes
  pub message : Bytes
  pub offer : GenerationOffer
  pub generation_directory : Bytes
  pub objects : List Bytes

pub record GenerationStream : Type 0 where
  pub descriptor : GroupDescriptor
  pub root : Bytes
  pub cursor : ℕ
  pub reported_bad_markers : List Bytes

abbrev pub nothing_observed : GenerationStreamObservation
nothing_observed = record {
  status = idle;
  sequence = 0;
  generation_id = [];
  message = [];
  offer = empty_offer;
  generation_directory = [];
  objects = [];
}

-- The exceptions that leave the stream.
pub data Thrown : Type 0 where
  filesystem_error : Thrown
  descriptor_failure : DescriptorError → Thrown

absolute_or_throw : Option Bytes → Result Thrown Bytes
absolute_or_throw none = err filesystem_error
absolute_or_throw (some path) = ok path

descriptor_or_throw : Result DescriptorError (Unit {0}) → Result Thrown (Unit {0})
descriptor_or_throw (ok u) = ok u
descriptor_or_throw (err e) = err (descriptor_failure e)

-- The constructor.
unfoldable pub generation_stream :
    FileSystem → GroupDescriptor → Bytes → Result Thrown GenerationStream
unfolding absolute_or_throw descriptor_or_throw
generation_stream fs descriptor generation_root = do
  root ← absolute_or_throw (fs.absolute generation_root)
  descriptor_or_throw (validate_group_descriptor descriptor (codes "<memory>"))
  ok (record {
    descriptor = descriptor;
    root = root;
    cursor = descriptor.baseline_sequence;
    reported_bad_markers = [];
  })

-- `<` on std::string and on the tuples of a reference.
unfoldable pub less : Bytes → Bytes → Bool
less a [] = false
less [] (y ∷ ys) = true
less (x ∷ xs) (y ∷ ys) = ltb x y || x == y && less xs ys

unfoldable pub less_reference : GenerationOfferReference → GenerationOfferReference → Bool
unfolding less
less_reference a b =
    ltb a.sequence b.sequence || a.sequence == b.sequence && less a.generation_id b.generation_id

-- `*std::max_element`: the first of the greatest.
unfoldable pub newest :
    GenerationOfferReference → List GenerationOfferReference → GenerationOfferReference
newest best [] = best
newest best (r ∷ rs) = newest (if less_reference best r then r else best) rs

-- The pass over the markers: the references past the cursor, and the malformed names.
unfoldable pub scan_markers : ℕ → List Bytes → List GenerationOfferReference × List Bytes
scan_markers cursor [] = ([], [])
scan_markers cursor (name ∷ names) =
    let (newer, malformed) = scan_markers cursor names in
    if ends_with name (codes ".ready")
    then (elim (parse_generation_offer_marker name name) [
      | ok r ↦ (if ltb cursor r.sequence then r ∷ newer else newer, malformed)
      | err e ↦ (newer, name ∷ malformed)
    ])
    else (newer, malformed)

-- `std::sort` on the malformed names.
pub insert : Bytes → List Bytes → List Bytes
unfolding less
insert x [] = x ∷ []
insert x (y ∷ ys) = let rest = insert x ys in if less y x then y ∷ rest else x ∷ y ∷ ys

unfoldable pub sorted : List Bytes → List Bytes
unfolding insert
sorted [] = []
sorted (x ∷ xs) = insert x (sorted xs)

unfoldable pub first_unreported : List Bytes → List Bytes → Option Bytes
first_unreported reported [] = none
first_unreported reported (name ∷ names) =
    let rest = first_unreported reported names in
    if member_of name reported then rest else some name

abbrev pub about : GenerationStream → Bytes
about s = codes "generation stream '" ++ s.descriptor.publication_key ++ codes "': "

-- No offer is newer: report one malformed marker at most.
unfoldable pub report_malformed :
    GenerationStream → List Bytes → GenerationStream × GenerationStreamObservation
unfolding first_unreported sorted
report_malformed s malformed = elim (first_unreported s.reported_bad_markers (sorted malformed)) [
  | none ↦ (s, nothing_observed)
  | some name ↦ (
    record s { reported_bad_markers = s.reported_bad_markers ++ name ∷ [] },
    record nothing_observed {
      status = rejected;
      message = about s ++ codes "offer marker '" ++ name ++ codes "' is not a valid offer marker";
    },
  )
]

unfoldable pub reject :
    GenerationStream
    → GenerationOfferReference
    → Bytes
    → GenerationStream × GenerationStreamObservation
reject s selected message = (
  record s { cursor = selected.sequence },
  record nothing_observed {
    status = rejected;
    sequence = selected.sequence;
    generation_id = selected.generation_id;
    message = message;
  },
)
