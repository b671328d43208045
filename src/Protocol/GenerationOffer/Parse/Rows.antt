-- ===== src/Protocol/GenerationOffer/Parse/Rows.antt =====
-- Each row that `serialize_generation_offer` writes is read back into the draft.
use nekomata.Base.{
  ℕ, ◌+◌, ◌<◌, ◌≡◌, refl, ◌∙◌, true, false, List, [], ◌∷◌, ◌++◌, map-append, ◌==◌, arith, ok,
  append_assoc, append-nil, length,
}
use nekomata.Text.{
  Bytes, codes, equal, to_string, quoted, lines, is_space, member_of, IsLine, IsWord, quoted-IsLine,
  IsLine-append, uint64_limit,
}
use nekomata.Protocol.Codec.Laws.{
  is_identity, identity-IsLine, sha256-IsLine, text-IsLine, IsPortable, require_identity_iff,
  require_portable_iff, read_quoted-quoted, read_quoted-last, require_end-nil,
}
use nekomata.Protocol.Scanner.Fields.{
  to_string-IsLine, read_word-to_string, parse_unsigned_decimal-to_string, to_string-is_empty,
}
use nekomata.Protocol.Codec.Rows.{field_line, scan_rows-word, scan_rows-nil}
use nekomata.Protocol.GenerationOffer.Print.{member_fields, member_lines, changed_input_lines}
use nekomata.Protocol.GenerationOffer.Validity.{
  IsMember, AreMembers, AreInputs, validate_member-IsMember,
}
use nekomata.Protocol.GenerationOffer.Parse.{
  Draft, directive_of, directive_row, read_identity_field, read_sequence, read_member, parse_rows,
  Directive, group_id, sequence, generation_id, compatibility_id, abi_id, member, changed_input,
  member_names, object_paths,
}
use nekomata.Protocol.GenerationOffer.{
  GenerationOfferMember, reject, malformed_value, unexpected_value, invalid_field, path_wording,
  require_new_member,
}

module _ (source : Bytes) where
  read_identity_field-quoted :
      (line : ℕ) (value field : Bytes)
      → is_identity value ≡ true
      → read_identity_field source line false (b' ' ∷ quoted value) field ≡ ok value
  unfolding read_identity_field
  read_identity_field-quoted line value field h =
      rw (read_quoted-last (reject malformed_value source line) value field) (
        rw
          (
            require_end-nil (reject unexpected_value source line),
            (require_identity_iff (reject invalid_field source line) value field).1 h,
          )
          refl)

  pub directives :
      (directive_of (codes "group_id") ≡ group_id)
      × (directive_of (codes "sequence") ≡ sequence)
      × (directive_of (codes "generation_id") ≡ generation_id)
      × (directive_of (codes "compatibility_id") ≡ compatibility_id)
      × (directive_of (codes "abi_id") ≡ abi_id)
      × (directive_of (codes "member") ≡ member)
      × (directive_of (codes "changed_input") ≡ changed_input)
  unfolding directive_of equal codes
  directives = (refl, refl, refl, refl, refl, refl, refl)

  -- A row whose directive succeeds is passed.
  pub parse_rows-row :
      (δ : Directive) (c : ℕ) (w row rest : Bytes) (n : ℕ) (d d' : Draft)
      → directive_of (c ∷ w) ≡ δ
      → IsWord (c ∷ w)
      → (c == b'#') ≡ false
      → IsLine row
      → directive_row δ (c ∷ w) source (n + 1) d (b' ' ∷ row) ≡ ok d'
      → parse_rows source (lines ((c ∷ w) ++ (b' ' ∷ (row ++ (b'\n' ∷ rest))))) n d
        ≡ parse_rows source (lines rest) (n + 1) d'
  unfolding parse_rows
  parse_rows-row δ c w row rest n d d' e h k v step =
      scan_rows-word _ c w row rest n d h k v ∙ rw e (rw step refl)

  pub parse_rows-field :
      (δ : Directive) (c : ℕ) (w value rest : Bytes) (n : ℕ) (d d' : Draft)
      → directive_of (c ∷ w) ≡ δ
      → IsWord (c ∷ w)
      → (c == b'#') ≡ false
      → is_identity value ≡ true
      → directive_row δ (c ∷ w) source (n + 1) d (b' ' ∷ quoted value) ≡ ok d'
      → parse_rows source (lines (field_line (c ∷ w) value rest)) n d
        ≡ parse_rows source (lines rest) (n + 1) d'
  unfolding field_line
  parse_rows-field δ c w value rest n d d' e h k v step =
      parse_rows-row δ c w (quoted value) rest n d d' e h k
        (quoted-IsLine value (identity-IsLine value v)) step

  module _ (line : ℕ) (d : Draft) (word value : Bytes) where
    pub row-group_id :
        d.has_group_id ≡ false
        → is_identity value ≡ true
        → directive_row group_id word source line d (b' ' ∷ quoted value)
          ≡ ok (record d { offer = record d.offer { group_id = value }; has_group_id = true })
    unfolding directive_row
    row-group_id absent h =
        rw (absent, directive_row, read_identity_field-quoted line value (codes "group_id") h) refl

    pub row-generation_id :
        d.has_generation_id ≡ false
        → IsPortable false value
        → directive_row generation_id word source line d (b' ' ∷ quoted value)
          ≡ ok (record d {
            offer = record d.offer { generation_id = value };
            has_generation_id = true;
          })
    unfolding directive_row
    row-generation_id absent h =
        rw
          (
            absent,
            directive_row,
            read_identity_field-quoted line value (codes "generation_id") h.identity,
            (require_portable_iff (reject invalid_field source line) path_wording value
                  (codes "generation_id") false).1
                h,
          )
          refl

    pub row-compatibility_id :
        d.has_compatibility_id ≡ false
        → is_identity value ≡ true
        → directive_row compatibility_id word source line d (b' ' ∷ quoted value)
          ≡ ok (record d {
            offer = record d.offer { compatibility_id = value };
            has_compatibility_id = true;
          })
    unfolding directive_row
    row-compatibility_id absent h =
        rw
          (
            absent,
            directive_row,
            read_identity_field-quoted line value (codes "compatibility_id") h,
          )
          refl

    pub row-abi_id :
        d.has_abi_id ≡ false
        → is_identity value ≡ true
        → directive_row abi_id word source line d (b' ' ∷ quoted value)
          ≡ ok (record d { offer = record d.offer { abi_id = value }; has_abi_id = true })
    unfolding directive_row
    row-abi_id absent h =
        rw (absent, directive_row, read_identity_field-quoted line value (codes "abi_id") h) refl

    row-changed_input :
        member_of value d.offer.changed_inputs ≡ false
        → is_identity value ≡ true
        → directive_row changed_input word source line d (b' ' ∷ quoted value)
          ≡ ok (record d {
            offer = record d.offer { changed_inputs = d.offer.changed_inputs ++ value ∷ [] };
          })
    unfolding directive_row
    row-changed_input new h =
        rw (read_quoted-last (reject malformed_value source line) value (codes "changed_input")) (
          rw
            (
              require_end-nil (reject unexpected_value source line),
              (require_identity_iff (reject invalid_field source line) value
                    (codes "changed_input")).1
                  h,
              new,
            )
            refl)

  read_member-fields :
      (line : ℕ) (m : GenerationOfferMember)
      → read_member source line (b' ' ∷ member_fields m) ≡ ok (m, [])
  unfolding read_member member_fields
  read_member-fields line m =
      let r = reject malformed_value source line in
      rw (read_quoted-quoted r m.member _ (codes "member")) (
        rw (read_quoted-quoted r m.object_path _ (codes "object_path")) (
          rw (read_quoted-quoted r m.sha256 _ (codes "sha256")) (
            rw (read_quoted-quoted r m.source_identity _ (codes "source_identity"))
              (rw (read_quoted-last r m.build_information (codes "build_information")) refl))))

  spaced : (text rest : Bytes) → IsLine text → IsLine rest → IsLine (quoted text ++ (b' ' ∷ rest))
  spaced text rest h k = IsLine-append (quoted text) (b' ' ∷ rest) (quoted-IsLine text h) k

  member_fields-IsLine : (m : GenerationOfferMember) → IsMember m → IsLine (member_fields m)
  unfolding member_fields
  member_fields-IsLine m v = spaced m.member _ (identity-IsLine m.member v.name.identity) (
      spaced m.object_path _ (identity-IsLine m.object_path v.path.identity) (
        spaced m.sha256 _ (sha256-IsLine m.sha256 v.digest) (
          spaced m.source_identity _ (identity-IsLine m.source_identity v.origin)
            (quoted-IsLine m.build_information (text-IsLine m.build_information v.build)))))

  row-member :
      (line : ℕ) (d : Draft) (word : Bytes) (m : GenerationOfferMember)
      → IsMember m
      → member_of m.member (member_names d.offer.members) ≡ false
      → member_of m.object_path (object_paths d.offer.members) ≡ false
      → directive_row member word source line d (b' ' ∷ member_fields m)
        ≡ ok (record d { offer = record d.offer { members = d.offer.members ++ m ∷ [] } })
  unfolding directive_row require_new_member
  row-member line d word m v name path = rw (read_member-fields line m) (
      rw
        (
          require_end-nil (reject unexpected_value source line),
          (validate_member-IsMember m source line).1 v,
          name,
          path,
        )
        refl)

  parse_rows-nil : (n : ℕ) (d : Draft) → parse_rows source (lines []) n d ≡ ok (d, n)
  unfolding parse_rows
  parse_rows-nil n d = scan_rows-nil _ n d

  pub parse_rows-members :
      (ms : List GenerationOfferMember) (rest : Bytes) (n : ℕ) (d : Draft)
      → AreMembers (member_names d.offer.members) (object_paths d.offer.members) ms
      → parse_rows source (lines (member_lines ms rest)) n d
        ≡ parse_rows source
            (lines rest)
            (n + length ms)
            (record d { offer = record d.offer { members = d.offer.members ++ ms } })
  unfolding member_lines codes is_space
  parse_rows-members [] rest n d h = ground (arith, append-nil d.offer.members)
  parse_rows-members (m ∷ ms) rest n d h =
      parse_rows-row member b'm' (codes "ember") (member_fields m) (member_lines ms rest) n d _
        directives.5 refl refl (member_fields-IsLine m h.0)
        (row-member (n + 1) d (codes "member") m h.0 h.1 h.2)
      ∙ parse_rows-members ms rest (n + 1) _ (
          rw
            (
              map-append (λ (x : GenerationOfferMember). x.member) d.offer.members (m ∷ []),
              map-append (λ (x : GenerationOfferMember). x.object_path) d.offer.members (m ∷ []),
            )
            h.3)
      ∙ ground (arith, append_assoc d.offer.members (m ∷ []) ms)

  pub parse_rows-inputs :
      (inputs : List Bytes) (n : ℕ) (d : Draft)
      → AreInputs d.offer.changed_inputs inputs
      → parse_rows source (lines (changed_input_lines inputs)) n d
        ≡ ok (
          record d { offer = record d.offer { changed_inputs = d.offer.changed_inputs ++ inputs } },
          n + length inputs,
        )
  unfolding changed_input_lines codes is_space
  parse_rows-inputs [] n d h =
      parse_rows-nil n d ∙ ground (arith, append-nil d.offer.changed_inputs)
  parse_rows-inputs (input ∷ inputs) n d h =
      parse_rows-field changed_input b'c' (codes "hanged_input") input (changed_input_lines inputs)
        n d _ directives.6 refl refl h.0
        (row-changed_input (n + 1) d (codes "changed_input") input h.1 h.0)
      ∙ parse_rows-inputs inputs (n + 1) _ h.2
      ∙ ground (arith, append_assoc d.offer.changed_inputs (input ∷ []) inputs)

  pub parse_rows-sequence :
      (k : ℕ) (rest : Bytes) (n : ℕ) (d : Draft)
      → k < uint64_limit
      → d.has_sequence ≡ false
      → parse_rows source (lines (codes "sequence" ++ (b' ' ∷ (to_string k ++ (b'\n' ∷ rest))))) n d
        ≡ parse_rows source
            (lines rest)
            (n + 1)
            (record d { offer = record d.offer { sequence = k }; has_sequence = true })
  unfolding codes is_space directive_row
  parse_rows-sequence k rest n d h absent =
      parse_rows-row sequence b's' (codes "equence") (to_string k) rest n d _ directives.1 refl refl
        (to_string-IsLine k)
        (rw (absent, directive_row)
          (rw (read_sequence, read_word-to_string k)
            (rw
              (
                to_string-is_empty k,
                parse_unsigned_decimal-to_string k h,
                require_end-nil (reject unexpected_value source (n + 1)),
              )
              refl)))
