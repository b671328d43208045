-- ===== src/Protocol/GenerationOffer/Marker.antt =====
-- Ready markers, `<sequence>-<generation_id>.ready`, of src/protocol/generation_offer.cpp.
pub mod RoundTrip
use nekomata.Base.{
  ℕ, suc, ◌+◌, ◌-◌, Bool, true, false, not, ◌&&◌, ◌||◌, List, [], ◌∷◌, ◌++◌, Option, none, some,
  ◌==◌, Result, ok, err, ◌>>=◌, ◌>>◌, guard, length, take, drop,
}
use nekomata.Text.{Bytes, codes, to_string, ends_with, find_byte, equal}
use nekomata.Protocol.Scanner.{parse_unsigned_decimal}
use nekomata.Protocol.Codec.{require_portable}
use nekomata.Protocol.GenerationOffer.{
  GenerationOffer, GenerationOfferReference, GenerationOfferErrorCode, invalid_marker,
  marker_mismatch, reject, Parsed, path_wording, validate_generation_offer,
}

abbrev pub suffix : Bytes
suffix = codes ".ready"

-- `validate_reference`; its only caller's code is `invalid_marker`.
unfoldable pub validate_reference : GenerationOfferReference → Bytes → Parsed (Unit {0})
validate_reference reference source =
    require_portable (reject invalid_marker source 0) path_wording reference.generation_id
      (codes "generation_id") false

bad_marker : Bytes → Parsed GenerationOfferReference
bad_marker source =
    err (reject invalid_marker source 0 (codes "marker must be <sequence>-<generation_id>.ready"))

-- The stem, cut at the position of its first dash.
cut_stem : Bytes → Bytes → Option ℕ → Parsed GenerationOfferReference
unfolding bad_marker validate_reference
cut_stem source stem none = bad_marker source
cut_stem source stem (some separator) =
    let parsed = parse_unsigned_decimal (take separator stem) in
    let reference : GenerationOfferReference = record {
      sequence = parsed.value;
      generation_id = drop (separator + 1) stem;
    } in
    do
      guard (not (separator == 0 || separator + 1 == length stem))
          (reject invalid_marker source 0 (codes "marker must be <sequence>-<generation_id>.ready"))
      guard (not parsed.leading_zero && parsed.ok) (
          reject invalid_marker source 0
            (codes "sequence must be a canonical unsigned decimal integer"))
      validate_reference reference source
      ok reference

unfoldable pub parse_generation_offer_marker : Bytes → Bytes → Parsed GenerationOfferReference
unfolding cut_stem
parse_generation_offer_marker filename source =
    let stem = take (length filename - length suffix) filename in
    do
      guard (ends_with filename suffix)
          (reject invalid_marker source 0 (codes "marker must end in .ready"))
      cut_stem source stem (find_byte b'-' stem)

unfoldable pub marker_name : GenerationOfferReference → Bytes
marker_name reference = to_string reference.sequence ++ (b'-' ∷ (reference.generation_id ++ suffix))

unfoldable pub serialize_generation_offer_marker : GenerationOfferReference → Parsed Bytes
unfolding marker_name
serialize_generation_offer_marker reference = do
  validate_reference reference (codes "<memory>")
  ok (marker_name reference)

unfoldable pub validate_generation_offer_reference :
    GenerationOfferReference → GenerationOffer → Bytes → Parsed (Unit {0})
validate_generation_offer_reference reference offer source = do
  validate_reference reference source
  validate_generation_offer offer source
  guard (reference.sequence == offer.sequence) (
      reject marker_mismatch source 0 (
        codes "marker sequence "
        ++ to_string reference.sequence
        ++ codes " does not match manifest sequence "
        ++ to_string offer.sequence))
  guard (equal reference.generation_id offer.generation_id) (
      reject marker_mismatch source 0 (
        codes "marker generation_id '"
        ++ reference.generation_id
        ++ codes "' does not match manifest generation_id '"
        ++ offer.generation_id
        ++ codes "'"))
