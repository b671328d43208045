-- ===== src/Protocol/GroupDescriptor/Parse/Rows.antt =====
-- Each row that `serialize_group_descriptor` writes is read back into the draft.
use nekomata.Base.{
  ℕ, ◌+◌, ◌<◌, ◌≡◌, refl, ◌∙◌, true, false, List, [], ◌∷◌, ◌++◌, some, ◌==◌, arith, ok,
  append_assoc, append-nil, length,
}
use nekomata.Text.{
  Bytes, codes, equal, to_string, quoted, lines, is_space, member_of, IsWord, quoted-IsLine,
  uint64_limit,
}
use nekomata.Protocol.Codec.Laws.{
  is_identity, identity-IsLine, IsPortable, require_identity_iff, require_portable_iff,
  read_quoted-last, require_end-nil,
}
use nekomata.Protocol.Scanner.Fields.{
  to_string-IsLine, read_word-to_string, parse_unsigned_decimal-to_string, to_string-is_empty,
}
use nekomata.Protocol.Codec.Rows.{field_line, scan_rows-word, scan_rows-nil}
use nekomata.Protocol.GroupDescriptor.Print.{member_lines}
use nekomata.Protocol.GroupDescriptor.Validity.{AreMembers}
use nekomata.Protocol.GroupDescriptor.Parse.{
  Draft, directive_of, directive_row, read_identity_field, read_sequence, parse_rows, Directive,
  group_id, publication_key, baseline_sequence, compatibility_id, abi_id, generation_root_hint,
  member,
}
use nekomata.Protocol.GroupDescriptor.{
  reject, malformed_value, unexpected_value, invalid_field, key_wording,
}

module _ (source : Bytes) where
  read_identity_field-quoted :
      (line : ℕ) (value field : Bytes)
      → is_identity value ≡ true
      → read_identity_field source line false (b' ' ∷ quoted value) field ≡ ok value
  unfolding read_identity_field
  read_identity_field-quoted line value field h =
      rw (read_quoted-last (reject malformed_value source line) value field) (
        rw
          (
            require_end-nil (reject unexpected_value source line),
            (require_identity_iff (reject invalid_field source line) value field).1 h,
          )
          refl)

  pub directives :
      (directive_of (codes "group_id") ≡ group_id)
      × (directive_of (codes "publication_key") ≡ publication_key)
      × (directive_of (codes "baseline_sequence") ≡ baseline_sequence)
      × (directive_of (codes "compatibility_id") ≡ compatibility_id)
      × (directive_of (codes "abi_id") ≡ abi_id)
      × (directive_of (codes "generation_root_hint") ≡ generation_root_hint)
      × (directive_of (codes "member") ≡ member)
  unfolding directive_of equal codes
  directives = (refl, refl, refl, refl, refl, refl, refl)

  -- A row whose directive succeeds is passed.
  pub parse_rows-field :
      (δ : Directive) (c : ℕ) (w value rest : Bytes) (n : ℕ) (d d' : Draft)
      → directive_of (c ∷ w) ≡ δ
      → IsWord (c ∷ w)
      → (c == b'#') ≡ false
      → is_identity value ≡ true
      → directive_row δ (c ∷ w) source (n + 1) d (b' ' ∷ quoted value) ≡ ok d'
      → parse_rows source (lines (field_line (c ∷ w) value rest)) n d
        ≡ parse_rows source (lines rest) (n + 1) d'
  unfolding parse_rows field_line
  parse_rows-field δ c w value rest n d d' e h k v step =
      scan_rows-word _ c w (quoted value) rest n d h k
        (quoted-IsLine value (identity-IsLine value v))
      ∙ rw e (rw step refl)

  module _ (line : ℕ) (d : Draft) (word value : Bytes) where
    pub row-group_id :
        d.has_group_id ≡ false
        → is_identity value ≡ true
        → directive_row group_id word source line d (b' ' ∷ quoted value)
          ≡ ok (record d {
            descriptor = record d.descriptor { group_id = value };
            has_group_id = true;
          })
    unfolding directive_row
    row-group_id absent h =
        rw (absent, directive_row, read_identity_field-quoted line value (codes "group_id") h) refl

    pub row-publication_key :
        d.has_publication_key ≡ false
        → IsPortable false value
        → directive_row publication_key word source line d (b' ' ∷ quoted value)
          ≡ ok (record d {
            descriptor = record d.descriptor { publication_key = value };
            has_publication_key = true;
          })
    unfolding directive_row
    row-publication_key absent h =
        rw
          (
            absent,
            directive_row,
            read_identity_field-quoted line value (codes "publication_key") h.identity,
            (require_portable_iff (reject invalid_field source line) key_wording value
                  (codes "publication_key") false).1
                h,
          )
          refl

    pub row-compatibility_id :
        d.has_compatibility_id ≡ false
        → is_identity value ≡ true
        → directive_row compatibility_id word source line d (b' ' ∷ quoted value)
          ≡ ok (record d {
            descriptor = record d.descriptor { compatibility_id = value };
            has_compatibility_id = true;
          })
    unfolding directive_row
    row-compatibility_id absent h =
        rw
          (
            absent,
            directive_row,
            read_identity_field-quoted line value (codes "compatibility_id") h,
          )
          refl

    pub row-abi_id :
        d.has_abi_id ≡ false
        → is_identity value ≡ true
        → directive_row abi_id word source line d (b' ' ∷ quoted value)
          ≡ ok (record d { descriptor = record d.descriptor { abi_id = value }; has_abi_id = true })
    unfolding directive_row
    row-abi_id absent h =
        rw (absent, directive_row, read_identity_field-quoted line value (codes "abi_id") h) refl

    pub row-generation_root_hint :
        d.has_generation_root_hint ≡ false
        → is_identity value ≡ true
        → directive_row generation_root_hint word source line d (b' ' ∷ quoted value)
          ≡ ok (record d {
            descriptor = record d.descriptor { generation_root_hint = some value };
            has_generation_root_hint = true;
          })
    unfolding directive_row
    row-generation_root_hint absent h =
        rw
          (
            absent,
            directive_row,
            read_identity_field-quoted line value (codes "generation_root_hint") h,
          )
          refl

    row-member :
        member_of value d.descriptor.members ≡ false
        → IsPortable true value
        → directive_row member word source line d (b' ' ∷ quoted value)
          ≡ ok (record d {
            descriptor = record d.descriptor { members = d.descriptor.members ++ value ∷ [] };
          })
    unfolding directive_row
    row-member new h =
        rw (read_quoted-last (reject malformed_value source line) value (codes "member")) (
          rw
            (
              require_end-nil (reject unexpected_value source line),
              (require_portable_iff (reject invalid_field source line) key_wording value
                    (codes "member") true).1
                  h,
              new,
            )
            refl)

  parse_rows-nil : (n : ℕ) (d : Draft) → parse_rows source (lines []) n d ≡ ok (d, n)
  unfolding parse_rows
  parse_rows-nil n d = scan_rows-nil _ n d

  pub parse_rows-members :
      (ms : List Bytes) (n : ℕ) (d : Draft)
      → AreMembers d.descriptor.members ms
      → parse_rows source (lines (member_lines ms)) n d
        ≡ ok (
          record d { descriptor = record d.descriptor { members = d.descriptor.members ++ ms } },
          n + length ms,
        )
  unfolding member_lines codes is_space
  parse_rows-members [] n d h = parse_rows-nil n d ∙ ground (arith, append-nil d.descriptor.members)
  parse_rows-members (m ∷ ms) n d h =
      parse_rows-field member b'm' (codes "ember") m (member_lines ms) n d _ directives.6 refl refl
        h.0.identity (row-member (n + 1) d (codes "member") m h.1 h.0)
      ∙ parse_rows-members ms (n + 1) _ h.2
      ∙ ground (arith, append_assoc d.descriptor.members (m ∷ []) ms)

  pub parse_rows-baseline_sequence :
      (k : ℕ) (rest : Bytes) (n : ℕ) (d : Draft)
      → k < uint64_limit
      → d.has_baseline_sequence ≡ false
      → parse_rows source
          (lines (codes "baseline_sequence" ++ (b' ' ∷ (to_string k ++ (b'\n' ∷ rest)))))
          n
          d
        ≡ parse_rows source (lines rest) (n + 1) (record d {
          descriptor = record d.descriptor { baseline_sequence = k };
          has_baseline_sequence = true;
        })
  unfolding parse_rows codes is_space
  parse_rows-baseline_sequence k rest n d h absent =
      scan_rows-word _ b'b' (codes "aseline_sequence") (to_string k) rest n d refl refl
        (to_string-IsLine k)
      ∙ rw (directives.2) (
          rw (directive_row, absent)
            (rw (read_sequence, read_word-to_string k)
              (rw
                (
                  to_string-is_empty k,
                  parse_unsigned_decimal-to_string k h,
                  require_end-nil (reject unexpected_value source (n + 1)),
                )
                refl)))
