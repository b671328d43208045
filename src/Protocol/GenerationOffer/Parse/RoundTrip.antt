-- ===== src/Protocol/GenerationOffer/Parse/RoundTrip.antt =====
-- `parse_generation_offer` after `serialize_generation_offer`.
use nekomata.Base.{
  ℕ, ◌+◌, ◌<◌, ◌≡◌, refl, ◌∙◌, subst, true, ◌∷◌, ◌++◌, ok, length, bind-eq-ok, ok-injective,
}
use nekomata.Text.{
  Bytes, codes, to_string, lines, is_space, IsLine, lines-cons, uint64_limit, equal, trim_return,
}
use nekomata.Protocol.Scanner.{compose_magic_line, inspect_magic_line}
use nekomata.Protocol.Codec.Rows.{field_line}
use nekomata.Protocol.GenerationOffer.Print.{
  member_lines, changed_input_lines, render, serialize_generation_offer,
}
use nekomata.Protocol.GenerationOffer.Validity.{IsValid, validate_generation_offer-IsValid}
use nekomata.Protocol.GenerationOffer.Parse.Rows.{
  directives, parse_rows-field, row-group_id, row-generation_id, row-compatibility_id, row-abi_id,
  parse_rows-members, parse_rows-inputs, parse_rows-sequence,
}
use nekomata.Protocol.GenerationOffer.Parse.{
  Draft, empty_draft, group_id, generation_id, compatibility_id, abi_id, parse_rows, finish,
  parse_lines, magic_verdict, parse_generation_offer,
}
use nekomata.Protocol.GenerationOffer.{
  GenerationOffer, format_name, format_version, validate_generation_offer,
}

module _ (source : Bytes) where
  magic_line :
      magic_verdict source (
        inspect_magic_line
          (trim_return (compose_magic_line format_name format_version))
          format_name
          format_version)
      ≡ ok tt
  unfolding magic_verdict compose_magic_line inspect_magic_line trim_return codes to_string equal
  magic_line = refl

  magic-IsLine : IsLine (compose_magic_line format_name format_version)
  unfolding compose_magic_line codes to_string
  magic-IsLine = refl

  abbrev final_draft : GenerationOffer → Draft
  final_draft offer = record {
    offer = offer;
    has_group_id = true;
    has_sequence = true;
    has_generation_id = true;
    has_compatibility_id = true;
    has_abi_id = true;
  }

  body : GenerationOffer → Bytes
  body offer = field_line (codes "group_id") offer.group_id (
      codes "sequence"
      ++ (b' '
          ∷ (to_string offer.sequence
              ++ (b'\n'
                  ∷ field_line (codes "generation_id") offer.generation_id (
                      field_line (codes "compatibility_id") offer.compatibility_id (
                        field_line (codes "abi_id") offer.abi_id (
                          member_lines offer.members
                            (changed_input_lines offer.changed_inputs))))))))

  parse_rows-body :
      (offer : GenerationOffer)
      → IsValid offer
      → offer.sequence < uint64_limit
      → parse_rows source (lines (body offer)) 1 empty_draft
        ≡ ok (final_draft offer, 6 + length offer.members + length offer.changed_inputs)
  unfolding body codes is_space
  parse_rows-body offer v small =
      parse_rows-field source group_id b'g' (codes "roup_id") offer.group_id _ 1 _ _
        (directives source).0 refl refl v.group_id
        (row-group_id source _ _ _ offer.group_id refl v.group_id)
      ∙ parse_rows-sequence source offer.sequence _ _ _ small refl
      ∙ parse_rows-field source generation_id b'g' (codes "eneration_id") offer.generation_id _ _ _
          _ (directives source).2 refl refl v.generation_id.identity
          (row-generation_id source _ _ _ offer.generation_id refl v.generation_id)
      ∙ parse_rows-field source compatibility_id b'c' (codes "ompatibility_id")
          offer.compatibility_id _ _ _ _ (directives source).3 refl refl v.compatibility_id
          (row-compatibility_id source _ _ _ offer.compatibility_id refl v.compatibility_id)
      ∙ parse_rows-field source abi_id b'a' (codes "bi_id") offer.abi_id _ _ _ _
          (directives source).4 refl refl v.abi_id
          (row-abi_id source _ _ _ offer.abi_id refl v.abi_id)
      ∙ parse_rows-members source offer.members _ _ _ v.members
      ∙ parse_rows-inputs source offer.changed_inputs _ _ v.inputs

  finish-final :
      (offer : GenerationOffer) (n : ℕ)
      → IsValid offer
      → finish source (final_draft offer, n) ≡ ok offer
  unfolding finish
  finish-final offer n v =
      rw (v.some_member, (validate_generation_offer-IsValid offer source).1 v) refl

  pub parse-render :
      (offer : GenerationOffer)
      → IsValid offer
      → offer.sequence < uint64_limit
      → parse_generation_offer (render offer) source ≡ ok offer
  unfolding parse_generation_offer render body
  parse-render offer v small =
      rw (lines-cons (compose_magic_line format_name format_version) (body offer) magic-IsLine)
        (rw (parse_lines, magic_line, parse_rows-body offer v small) (finish-final offer _ v))

  -- Every offer that serializes parses back to itself, if its sequence fits std::uint64_t.
  pub parse_generation_offer-serialize :
      (offer : GenerationOffer) {text : Bytes}
      → offer.sequence < uint64_limit
      → serialize_generation_offer offer ≡ ok text
      → parse_generation_offer text source ≡ ok offer
  unfolding serialize_generation_offer
  parse_generation_offer-serialize offer small e =
      let (u, valid, printed) =
        bind-eq-ok (validate_generation_offer offer (codes "<memory>")) (λ _. ok (render offer))
          e in
      subst (λ t. parse_generation_offer t source ≡ ok offer) (ok-injective printed)
        (parse-render offer ((validate_generation_offer-IsValid offer (codes "<memory>")).0 valid)
          small)
