-- ===== src/Protocol/GroupDescriptor/Parse/RoundTrip.antt =====
-- `parse_group_descriptor` after `serialize_group_descriptor`.
use nekomata.Base.{
  ℕ, ◌+◌, ◌<◌, ◌≡◌, refl, ap₂, subst, ◌∙◌, Bool, true, false, ◌∷◌, ◌++◌, Option, none, some, arith,
  Result, ok, length, bind-eq-ok,
}
use nekomata.Text.{
  Bytes, codes, to_string, lines, is_space, IsLine, lines-cons, uint64_limit, equal, trim_return,
}
use nekomata.Protocol.Scanner.{compose_magic_line, inspect_magic_line}
use nekomata.Protocol.Codec.Rows.{field_line}
use nekomata.Protocol.GroupDescriptor.Print.{
  hint_line, member_lines, render, serialize_group_descriptor,
}
use nekomata.Protocol.GroupDescriptor.Validity.{IsValid, IsHint, validate_group_descriptor-IsValid}
use nekomata.Protocol.GroupDescriptor.Parse.Rows.{
  directives, parse_rows-field, row-group_id, row-publication_key, row-compatibility_id, row-abi_id,
  row-generation_root_hint, parse_rows-members, parse_rows-baseline_sequence,
}
use nekomata.Protocol.GroupDescriptor.Parse.{
  Draft, empty_draft, group_id, publication_key, compatibility_id, abi_id, generation_root_hint,
  parse_rows, finish, parse_lines, magic_verdict, parse_group_descriptor,
}
use nekomata.Protocol.GroupDescriptor.{
  GroupDescriptor, DescriptorError, format_name, format_version, validate_group_descriptor,
}

is_some : Option Bytes → Bool
is_some none = false
is_some (some hint) = true

with_hint : Draft → Option Bytes → Draft
unfolding is_some
with_hint d hint = record d {
  descriptor = record d.descriptor { generation_root_hint = hint };
  has_generation_root_hint = is_some hint;
}

hint_rows : Option Bytes → ℕ
hint_rows none = 0
hint_rows (some hint) = 1

module _ (source : Bytes) where
  parse_rows-hint :
      (hint : Option Bytes) (rest : Bytes) (n : ℕ) (d : Draft)
      → d.has_generation_root_hint ≡ false
      → d.descriptor.generation_root_hint ≡ none
      → IsHint hint
      → parse_rows source (lines (hint_line hint rest)) n d
        ≡ parse_rows source (lines rest) (n + hint_rows hint) (with_hint d hint)
  unfolding hint_line with_hint hint_rows codes is_space
  parse_rows-hint none rest n d absent unset h =
      ap₂ (parse_rows source (lines rest)) (omega arith) (ground arith)
  parse_rows-hint (some hint) rest n d absent unset h =
      parse_rows-field source generation_root_hint b'g' (codes "eneration_root_hint") hint rest n d
        _ (directives source).5 refl refl h
        (row-generation_root_hint source (n + 1) d (codes "generation_root_hint") hint absent h)

  magic_line :
      magic_verdict source (
        inspect_magic_line
          (trim_return (compose_magic_line format_name format_version))
          format_name
          format_version)
      ≡ ok tt
  unfolding magic_verdict compose_magic_line inspect_magic_line trim_return codes to_string equal
  magic_line = refl

  magic-IsLine : IsLine (compose_magic_line format_name format_version)
  unfolding compose_magic_line codes to_string
  magic-IsLine = refl

  final_draft : GroupDescriptor → Draft
  unfolding is_some
  final_draft d = record {
    descriptor = d;
    has_group_id = true;
    has_publication_key = true;
    has_baseline_sequence = true;
    has_compatibility_id = true;
    has_abi_id = true;
    has_generation_root_hint = is_some d.generation_root_hint;
  }

  body : GroupDescriptor → Bytes
  body d = field_line (codes "group_id") d.group_id (
      field_line (codes "publication_key") d.publication_key (
        codes "baseline_sequence"
        ++ (b' '
            ∷ (to_string d.baseline_sequence
                ++ (b'\n'
                    ∷ field_line (codes "compatibility_id") d.compatibility_id (
                        field_line (codes "abi_id") d.abi_id
                          (hint_line d.generation_root_hint (member_lines d.members))))))))

  parse_rows-body :
      (d : GroupDescriptor)
      → IsValid d
      → d.baseline_sequence < uint64_limit
      → parse_rows source (lines (body d)) 1 empty_draft
        ≡ ok (final_draft d, 6 + hint_rows d.generation_root_hint + length d.members)
  unfolding body final_draft with_hint codes is_space
  parse_rows-body d v small =
      parse_rows-field source group_id b'g' (codes "roup_id") d.group_id _ 1 _ _
        (directives source).0 refl refl v.group_id
        (row-group_id source _ _ _ d.group_id refl v.group_id)
      ∙ parse_rows-field source publication_key b'p' (codes "ublication_key") d.publication_key _ _
          _ _ (directives source).1 refl refl v.publication_key.identity
          (row-publication_key source _ _ _ d.publication_key refl v.publication_key)
      ∙ parse_rows-baseline_sequence source d.baseline_sequence _ _ _ small refl
      ∙ parse_rows-field source compatibility_id b'c' (codes "ompatibility_id") d.compatibility_id _
          _ _ _ (directives source).3 refl refl v.compatibility_id
          (row-compatibility_id source _ _ _ d.compatibility_id refl v.compatibility_id)
      ∙ parse_rows-field source abi_id b'a' (codes "bi_id") d.abi_id _ _ _ _ (directives source).4
          refl refl v.abi_id (row-abi_id source _ _ _ d.abi_id refl v.abi_id)
      ∙ parse_rows-hint d.generation_root_hint _ _ _ refl refl v.hint
      ∙ parse_rows-members source d.members _ _ v.members

  finish-final : (d : GroupDescriptor) (n : ℕ) → IsValid d → finish source (final_draft d, n) ≡ ok d
  unfolding finish final_draft
  finish-final d n v = rw (v.some_member, (validate_group_descriptor-IsValid d source).1 v) refl

  parse-render :
      (d : GroupDescriptor)
      → IsValid d
      → d.baseline_sequence < uint64_limit
      → parse_group_descriptor (render d) source ≡ ok d
  unfolding parse_group_descriptor render body
  parse-render d v small =
      rw (lines-cons (compose_magic_line format_name format_version) (body d) magic-IsLine)
        (rw (parse_lines, magic_line, parse_rows-body d v small) (finish-final d _ v))

  rendered : {s t : Bytes} → ◌≡◌ {A = Result DescriptorError Bytes} (ok s) (ok t) → s ≡ t
  rendered e = cc

  -- Every descriptor that serializes parses back to itself, if its baseline sequence fits
  -- std::uint64_t.
  pub parse_group_descriptor-serialize :
      (d : GroupDescriptor) {text : Bytes}
      → d.baseline_sequence < uint64_limit
      → serialize_group_descriptor d ≡ ok text
      → parse_group_descriptor text source ≡ ok d
  unfolding serialize_group_descriptor
  parse_group_descriptor-serialize d small e =
      let (u, valid, printed) =
        bind-eq-ok (validate_group_descriptor d (codes "<memory>")) (λ _. ok (render d)) e in
      subst (λ t. parse_group_descriptor t source ≡ ok d) (rendered printed)
        (parse-render d ((validate_group_descriptor-IsValid d (codes "<memory>")).0 valid) small)
