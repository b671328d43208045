-- ===== src/Protocol/Tests.antt =====
-- The codecs' theorems at concrete values.
use nekomata.Base.{length, map, ltb→lt, ◌++◌, List, ◌<◌, ◌≡◌, refl, ◌↔◌, [], ◌∷◌, some, arith, ok}
use nekomata.Text.{Bytes, codes, to_string, quoted, uint64_limit, starts_with, member_of}
use nekomata.Protocol.Scanner.{
  inspect_portable_key, compose_magic_line, contains_control_character, is_empty,
}
use nekomata.Protocol.Codec.{
  require_identity, require_portable, require_sha256, require_text, is_lower_hex,
}
use nekomata.Protocol.Codec.Rows.{field_line}
use nekomata.Protocol.GroupDescriptor.{GroupDescriptor, validate_group_descriptor}
use nekomata.Protocol.GroupDescriptor.Validity.{IsValid}
use nekomata.Protocol.GroupDescriptor.Print.{render, serialize_group_descriptor}
use nekomata.Protocol.GroupDescriptor.Parse.{parse_group_descriptor}
use nekomata.Protocol.GroupDescriptor.Parse.RoundTrip.{parse_group_descriptor-serialize}
use nekomata.Protocol.GroupDescriptor.Parse.Sound.{
  parse_group_descriptor-IsValid, serialize-parse_group_descriptor,
}
use nekomata.Protocol.DescriptorSection.{
  DescriptorRecord, u32_le, parse_descriptor_section, serialize_descriptor_section,
}
use nekomata.Protocol.DescriptorSection.RoundTrip.{Fits, parse_descriptor_section-serialize}
use nekomata.Protocol.GenerationOffer.{
  GenerationOffer, GenerationOfferMember, GenerationOfferReference, validate_generation_offer,
  validate_members, validate_changed_inputs,
}
use nekomata.Protocol.GenerationOffer.Validity as OfferValidity
use nekomata.Protocol.GenerationOffer.Validity.{validate_generation_offer-IsValid}
use nekomata.Protocol.GenerationOffer.Print
use nekomata.Protocol.GenerationOffer.Print.{serialize_generation_offer}
use nekomata.Protocol.GenerationOffer.Parse.{parse_generation_offer}
use nekomata.Protocol.GenerationOffer.Parse.RoundTrip.{parse_generation_offer-serialize}
use nekomata.Protocol.GenerationOffer.Parse.Sound.{parse_generation_offer-IsValid}
use nekomata.Protocol.GenerationOffer.Marker.{
  marker_name, validate_reference, serialize_generation_offer_marker, parse_generation_offer_marker,
}
use nekomata.Protocol.GenerationOffer.Marker.RoundTrip.{parse_generation_offer_marker-serialize}
use nekomata.Protocol.GenerationOffer.Against.{
  validate_generation_offer_against_descriptor, validate_against-Agrees, Agrees,
}

abbrev source : Bytes
source = codes "game"

abbrev game : GroupDescriptor
game = record {
  group_id = codes "game";
  members = codes "src/a.cpp" ∷ codes "src/b.cpp" ∷ [];
  publication_key = codes "game-1";
  baseline_sequence = 3;
  compatibility_id = codes "c \"1\"";
  abi_id = codes "x";
  generation_root_hint = some (codes "/tmp/a b");
}

game-serializes : serialize_group_descriptor game ≡ ok (render game)
unfolding serialize_group_descriptor validate_group_descriptor codes require_identity is_empty
    contains_control_character require_portable inspect_portable_key member_of
game-serializes = refl

small : 3 < uint64_limit
small = omega arith

parse_group_descriptor-serialize_example : parse_group_descriptor (render game) source ≡ ok game
parse_group_descriptor-serialize_example =
    parse_group_descriptor-serialize source game {text = render game} small game-serializes

parse_group_descriptor-IsValid_example : IsValid game × (3 < uint64_limit)
parse_group_descriptor-IsValid_example =
    parse_group_descriptor-IsValid (render game) source parse_group_descriptor-serialize_example

serialize-parse_group_descriptor_example :
    (again : Bytes) × (serialize_group_descriptor game ≡ ok again)
    × (parse_group_descriptor again source ≡ ok game)
serialize-parse_group_descriptor_example =
    serialize-parse_group_descriptor (render game) source parse_group_descriptor-serialize_example

abbrev digest : Bytes
digest = codes "0123456789abcdef0123456789abcdef0123456789abcdef0123456789abcdef"

abbrev object_of : Bytes → Bytes → GenerationOfferMember
object_of name path = record {
  member = name;
  object_path = path;
  sha256 = digest;
  source_identity = name;
  build_information = codes "-O0 \"x\"";
}

abbrev offer : GenerationOffer
offer = record {
  group_id = codes "game";
  sequence = 4;
  generation_id = codes "g4";
  compatibility_id = codes "c \"1\"";
  abi_id = codes "x";
  members =
      object_of (codes "src/a.cpp") (codes "objects/a.o")
      ∷ object_of (codes "src/b.cpp") (codes "objects/b.o")
      ∷ [];
  changed_inputs = codes "src/a.cpp" ∷ [];
}

offer-serializes : serialize_generation_offer offer ≡ ok (Print.render offer)
unfolding serialize_generation_offer validate_generation_offer codes require_identity is_empty
    contains_control_character require_portable inspect_portable_key validate_members starts_with
    require_sha256 is_lower_hex require_text member_of validate_changed_inputs
offer-serializes = refl

parse_generation_offer-serialize_example :
    parse_generation_offer (Print.render offer) source ≡ ok offer
parse_generation_offer-serialize_example =
    parse_generation_offer-serialize source offer {text = Print.render offer} (omega arith)
      offer-serializes

parse_generation_offer-IsValid_example : OfferValidity.IsValid offer × (4 < uint64_limit)
parse_generation_offer-IsValid_example =
    parse_generation_offer-IsValid (Print.render offer) source
      parse_generation_offer-serialize_example

abbrev reference : GenerationOfferReference
reference = record { sequence = 4; generation_id = codes "g-4" }

reference-serializes : serialize_generation_offer_marker reference ≡ ok (marker_name reference)
unfolding serialize_generation_offer_marker codes validate_reference require_portable is_empty
    contains_control_character inspect_portable_key
reference-serializes = refl

parse_generation_offer_marker-serialize_example :
    parse_generation_offer_marker (marker_name reference) source ≡ ok reference
parse_generation_offer_marker-serialize_example =
    parse_generation_offer_marker-serialize reference source {name = marker_name reference}
      (omega arith) reference-serializes

validate_against-Agrees_example :
    (validate_generation_offer_against_descriptor offer game source ≡ ok tt) ↔ Agrees offer game
validate_against-Agrees_example = validate_against-Agrees offer game source

abbrev section_bytes : Bytes
section_bytes = u32_le (length (render game)) ++ (render game ++ [])

section-serializes : serialize_descriptor_section (game ∷ []) ≡ ok section_bytes
unfolding serialize_descriptor_section serialize_group_descriptor validate_group_descriptor codes
    require_identity is_empty contains_control_character require_portable inspect_portable_key
    member_of
section-serializes = refl

game-Fits : Fits game
unfolding render codes compose_magic_line to_string field_line quoted
game-Fits = (small, ltb→lt (length (render game)) 4294967296 refl)

parse_descriptor_section-serialize_example :
    (records : List DescriptorRecord) × (parse_descriptor_section section_bytes source ≡ ok records)
    × (map (λ r. r.descriptor) records ≡ game ∷ [])
parse_descriptor_section-serialize_example =
    parse_descriptor_section-serialize (game ∷ []) source section_bytes (game-Fits, tt)
      section-serializes
