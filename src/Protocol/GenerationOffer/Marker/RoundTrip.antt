-- ===== src/Protocol/GenerationOffer/Marker/RoundTrip.antt =====
-- Reading back the marker that `serialize_generation_offer_marker` names.
use nekomata.Base.{
  ◌-◌, ◌<◌, ◌≡◌, refl, sym, ap, ◌∙◌, subst, ◌≢◌, true, false, not, [], ◌∷◌, ◌++◌, some, ◌==◌, arith,
  ok, length, all, append_assoc, length-append, take-length_append, drop-suc_length, bind-eq-ok,
  ok-injective,
}
use nekomata.Text.{
  Bytes, codes, to_string, is_digit, ends_with-append, find_byte, find_byte-append,
  to_string-digits, to_string-ne-nil, uint64_limit,
}
use nekomata.Protocol.Scanner.{is_empty}
use nekomata.Protocol.Scanner.Fields.{parse_unsigned_decimal-to_string}
use nekomata.Protocol.Codec.Laws.{IsPortable, require_portable_iff}
use nekomata.Protocol.GenerationOffer.Marker.{
  suffix, validate_reference, cut_stem, parse_generation_offer_marker, marker_name,
  serialize_generation_offer_marker,
}
use nekomata.Protocol.GenerationOffer.{
  GenerationOfferReference, reject, path_wording, invalid_marker,
}

no_dash : (s : Bytes) → all is_digit s ≡ true → all (λ c. not (c == b'-')) s ≡ true
unfolding is_digit
no_dash [] h = refl
no_dash (c ∷ cs) h = ground (arith, no_dash cs)

abbrev stem_of : GenerationOfferReference → Bytes
stem_of r = to_string r.sequence ++ (b'-' ∷ r.generation_id)

positive : (s : Bytes) → s ≢ [] → 0 < length s
positive [] ne = absurd (ne refl)
positive (c ∷ cs) ne = omega arith

portable-ne-nil : (s : Bytes) → IsPortable false s → s ≢ []
unfolding is_empty
portable-ne-nil [] p e = absurd (cc p.identity)
portable-ne-nil (c ∷ cs) p e = cc

cut_stem-stem :
    (r : GenerationOfferReference) (source : Bytes)
    → r.sequence < uint64_limit
    → IsPortable false r.generation_id
    → cut_stem source (stem_of r) (some (length (to_string r.sequence))) ≡ ok r
unfolding cut_stem validate_reference
cut_stem-stem r source small p =
    rw
      (
        take-length_append (to_string r.sequence) (b'-' ∷ r.generation_id),
        drop-suc_length (to_string r.sequence) b'-' r.generation_id,
        parse_unsigned_decimal-to_string r.sequence small,
      )
      (ground (
        arith,
        positive (to_string r.sequence) (to_string-ne-nil r.sequence),
        positive r.generation_id (portable-ne-nil r.generation_id p),
        length-append (to_string r.sequence) (b'-' ∷ r.generation_id),
        (require_portable_iff (reject invalid_marker source 0) path_wording r.generation_id
              (codes "generation_id") false).1
            p,
      ))

parse-suffix :
    (stem source : Bytes)
    → parse_generation_offer_marker (stem ++ suffix) source
      ≡ cut_stem source stem (find_byte b'-' stem)
unfolding parse_generation_offer_marker
parse-suffix stem source =
    let cut : length (stem ++ suffix) - length suffix ≡ length stem =
      omega (arith, length-append stem suffix) in
    rw (ends_with-append stem suffix, cut, take-length_append stem suffix) refl

pub parse-marker_name :
    (r : GenerationOfferReference) (source : Bytes)
    → r.sequence < uint64_limit
    → IsPortable false r.generation_id
    → parse_generation_offer_marker (marker_name r) source ≡ ok r
unfolding marker_name
parse-marker_name r source small p =
    ap (λ s. parse_generation_offer_marker s source)
      (sym (append_assoc (to_string r.sequence) (b'-' ∷ r.generation_id) suffix))
    ∙ parse-suffix (stem_of r) source
    ∙ ap (cut_stem source (stem_of r)) (
        find_byte-append b'-' (to_string r.sequence) r.generation_id
          (no_dash (to_string r.sequence) (to_string-digits r.sequence)))
    ∙ cut_stem-stem r source small p

-- A marker that serializes parses back to its reference, if the sequence fits std::uint64_t.
pub parse_generation_offer_marker-serialize :
    (r : GenerationOfferReference) (source : Bytes) {name : Bytes}
    → r.sequence < uint64_limit
    → serialize_generation_offer_marker r ≡ ok name
    → parse_generation_offer_marker name source ≡ ok r
unfolding serialize_generation_offer_marker validate_reference
parse_generation_offer_marker-serialize r source small e =
    let (u, valid, printed) =
      bind-eq-ok (validate_reference r (codes "<memory>")) (λ _. ok (marker_name r)) e in
    subst (λ s. parse_generation_offer_marker s source ≡ ok r) (ok-injective printed)
      (parse-marker_name r source small (
        (require_portable_iff (reject invalid_marker (codes "<memory>") 0) path_wording
            r.generation_id (codes "generation_id") false).0
          valid))
