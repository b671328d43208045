-- ===== src/Protocol/WasmOffer/Parse/RoundTrip.antt =====
-- `parse_wasm_offer` after `serialize_wasm_offer`.
use nekomata.Base.{ℕ, ◌+◌, ◌<◌, ◌≡◌, refl, ◌∙◌, subst, true, ok, length, bind-eq-ok, ok-injective}
use nekomata.Text.{
  Bytes, codes, to_string, lines, is_space, IsLine, lines-cons, uint64_limit, equal, trim_return,
}
use nekomata.Protocol.Scanner.{compose_magic_line, inspect_magic_line}
use nekomata.Protocol.WasmOffer.Print.{body, render, serialize_wasm_offer}
use nekomata.Protocol.WasmOffer.Validity.{IsValid, validate_wasm_offer-IsValid}
use nekomata.Protocol.WasmOffer.Parse.Rows.{
  directives, parse_rows-field, row-group_id, row-generation_id, row-abi_id, parse_rows-artifact,
  parse_rows-entries, parse_rows-sequence,
}
use nekomata.Protocol.WasmOffer.Parse.{
  Draft, empty_draft, group_id, generation_id, abi_id, parse_rows, finish, parse_lines,
  magic_verdict, parse_wasm_offer,
}
use nekomata.Protocol.WasmOffer.{WasmOffer, format_name, format_version, validate_wasm_offer}

module _ (source : Bytes) where
  magic_line :
      magic_verdict source (
        inspect_magic_line
          (trim_return (compose_magic_line format_name format_version))
          format_name
          format_version)
      ≡ ok tt
  unfolding magic_verdict compose_magic_line inspect_magic_line trim_return codes to_string equal
  magic_line = refl

  magic-IsLine : IsLine (compose_magic_line format_name format_version)
  unfolding compose_magic_line codes to_string
  magic-IsLine = refl

  abbrev final_draft : WasmOffer → Draft
  final_draft offer = record {
    offer = offer;
    has_group_id = true;
    has_sequence = true;
    has_generation_id = true;
    has_abi_id = true;
    has_artifact = true;
  }

  parse_rows-body :
      (offer : WasmOffer)
      → IsValid offer
      → offer.sequence < uint64_limit
      → parse_rows source (lines (body offer)) 1 empty_draft
        ≡ ok (final_draft offer, 6 + length offer.entries)
  unfolding body codes is_space
  parse_rows-body offer v small =
      parse_rows-field source group_id b'g' (codes "roup_id") offer.group_id _ 1 _ _
        (directives source).0 refl refl v.group_id
        (row-group_id source _ _ _ offer.group_id refl v.group_id)
      ∙ parse_rows-sequence source offer.sequence _ _ _ small refl
      ∙ parse_rows-field source generation_id b'g' (codes "eneration_id") offer.generation_id _ _ _
          _ (directives source).2 refl refl v.generation_id.identity
          (row-generation_id source _ _ _ offer.generation_id refl v.generation_id)
      ∙ parse_rows-field source abi_id b'a' (codes "bi_id") offer.abi_id _ _ _ _
          (directives source).3 refl refl v.abi_id
          (row-abi_id source _ _ _ offer.abi_id refl v.abi_id)
      ∙ parse_rows-artifact source offer _ _ _ refl v.artifact_path v.sha256
      ∙ parse_rows-entries source offer.entries _ _ v.entries

  finish-final :
      (offer : WasmOffer) (n : ℕ) → IsValid offer → finish source (final_draft offer, n) ≡ ok offer
  unfolding finish
  finish-final offer n v = rw (v.some_entry, (validate_wasm_offer-IsValid offer source).1 v) refl

  pub parse-render :
      (offer : WasmOffer)
      → IsValid offer
      → offer.sequence < uint64_limit
      → parse_wasm_offer (render offer) source ≡ ok offer
  unfolding parse_wasm_offer render body
  parse-render offer v small =
      rw (lines-cons (compose_magic_line format_name format_version) (body offer) magic-IsLine)
        (rw (parse_lines, magic_line, parse_rows-body offer v small) (finish-final offer _ v))

  -- Every offer that serializes parses back to itself, if its sequence fits std::uint64_t.
  pub parse_wasm_offer-serialize :
      (offer : WasmOffer) {text : Bytes}
      → offer.sequence < uint64_limit
      → serialize_wasm_offer offer ≡ ok text
      → parse_wasm_offer text source ≡ ok offer
  unfolding serialize_wasm_offer
  parse_wasm_offer-serialize offer small e =
      let (u, valid, printed) =
        bind-eq-ok (validate_wasm_offer offer (codes "<memory>")) (λ _. ok (render offer)) e in
      subst (λ t. parse_wasm_offer t source ≡ ok offer) (ok-injective printed)
        (parse-render offer ((validate_wasm_offer-IsValid offer (codes "<memory>")).0 valid) small)
