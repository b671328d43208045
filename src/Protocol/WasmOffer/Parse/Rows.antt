-- ===== src/Protocol/WasmOffer/Parse/Rows.antt =====
-- Each row that `serialize_wasm_offer` writes is read back into the draft.
use nekomata.Base.{
  ℕ, ◌+◌, ◌<◌, ◌≡◌, refl, ◌∙◌, true, false, List, [], ◌∷◌, ◌++◌, ◌==◌, arith, ok, append_assoc,
  append-nil, length,
}
use nekomata.Text.{
  Bytes, codes, equal, to_string, quoted, lines, is_space, member_of, IsLine, IsWord, quoted-IsLine,
  IsLine-append, uint64_limit,
}
use nekomata.Protocol.Codec.Laws.{
  is_identity, identity-IsLine, is_sha256, sha256-IsLine, IsPortable, require_identity_iff,
  require_portable_iff, require_sha256_iff, read_quoted-quoted, read_quoted-last, require_end-nil,
}
use nekomata.Protocol.Scanner.Fields.{
  to_string-IsLine, read_word-to_string, parse_unsigned_decimal-to_string, to_string-is_empty,
}
use nekomata.Protocol.Codec.Rows.{field_line, scan_rows-word, scan_rows-nil}
use nekomata.Protocol.WasmOffer.Print.{artifact_fields, entry_lines}
use nekomata.Protocol.WasmOffer.Validity.{AreEntries}
use nekomata.Protocol.WasmOffer.Parse.{
  Draft, directive_of, directive_row, read_identity_field, read_sequence, read_artifact, parse_rows,
  Directive, group_id, sequence, generation_id, abi_id, artifact, entry,
}
use nekomata.Protocol.WasmOffer.{
  WasmOffer, reject, malformed_value, unexpected_value, invalid_field, path_wording,
}

module _ (source : Bytes) where
  read_identity_field-quoted :
      (line : ℕ) (value field : Bytes)
      → is_identity value ≡ true
      → read_identity_field source line false (b' ' ∷ quoted value) field ≡ ok value
  unfolding read_identity_field
  read_identity_field-quoted line value field h =
      rw (read_quoted-last (reject malformed_value source line) value field) (
        rw
          (
            require_end-nil (reject unexpected_value source line),
            (require_identity_iff (reject invalid_field source line) value field).1 h,
          )
          refl)

  pub directives :
      (directive_of (codes "group_id") ≡ group_id)
      × (directive_of (codes "sequence") ≡ sequence)
      × (directive_of (codes "generation_id") ≡ generation_id)
      × (directive_of (codes "abi_id") ≡ abi_id)
      × (directive_of (codes "artifact") ≡ artifact)
      × (directive_of (codes "entry") ≡ entry)
  unfolding directive_of equal codes
  directives = (refl, refl, refl, refl, refl, refl)

  -- A row whose directive succeeds is passed.
  pub parse_rows-row :
      (δ : Directive) (c : ℕ) (w row rest : Bytes) (n : ℕ) (d d' : Draft)
      → directive_of (c ∷ w) ≡ δ
      → IsWord (c ∷ w)
      → (c == b'#') ≡ false
      → IsLine row
      → directive_row δ (c ∷ w) source (n + 1) d (b' ' ∷ row) ≡ ok d'
      → parse_rows source (lines ((c ∷ w) ++ (b' ' ∷ (row ++ (b'\n' ∷ rest))))) n d
        ≡ parse_rows source (lines rest) (n + 1) d'
  unfolding parse_rows
  parse_rows-row δ c w row rest n d d' e h k v step =
      scan_rows-word _ c w row rest n d h k v ∙ rw e (rw step refl)

  pub parse_rows-field :
      (δ : Directive) (c : ℕ) (w value rest : Bytes) (n : ℕ) (d d' : Draft)
      → directive_of (c ∷ w) ≡ δ
      → IsWord (c ∷ w)
      → (c == b'#') ≡ false
      → is_identity value ≡ true
      → directive_row δ (c ∷ w) source (n + 1) d (b' ' ∷ quoted value) ≡ ok d'
      → parse_rows source (lines (field_line (c ∷ w) value rest)) n d
        ≡ parse_rows source (lines rest) (n + 1) d'
  unfolding field_line
  parse_rows-field δ c w value rest n d d' e h k v step =
      parse_rows-row δ c w (quoted value) rest n d d' e h k
        (quoted-IsLine value (identity-IsLine value v)) step

  module _ (line : ℕ) (d : Draft) (word value : Bytes) where
    pub row-group_id :
        d.has_group_id ≡ false
        → is_identity value ≡ true
        → directive_row group_id word source line d (b' ' ∷ quoted value)
          ≡ ok (record d { offer = record d.offer { group_id = value }; has_group_id = true })
    unfolding directive_row
    row-group_id absent h =
        rw (absent, directive_row, read_identity_field-quoted line value (codes "group_id") h) refl

    pub row-generation_id :
        d.has_generation_id ≡ false
        → IsPortable false value
        → directive_row generation_id word source line d (b' ' ∷ quoted value)
          ≡ ok (record d {
            offer = record d.offer { generation_id = value };
            has_generation_id = true;
          })
    unfolding directive_row
    row-generation_id absent h =
        rw
          (
            absent,
            directive_row,
            read_identity_field-quoted line value (codes "generation_id") h.identity,
            (require_portable_iff (reject invalid_field source line) path_wording value
                  (codes "generation_id") false).1
                h,
          )
          refl

    pub row-abi_id :
        d.has_abi_id ≡ false
        → is_identity value ≡ true
        → directive_row abi_id word source line d (b' ' ∷ quoted value)
          ≡ ok (record d { offer = record d.offer { abi_id = value }; has_abi_id = true })
    unfolding directive_row
    row-abi_id absent h =
        rw (absent, directive_row, read_identity_field-quoted line value (codes "abi_id") h) refl

    row-entry :
        member_of value d.offer.entries ≡ false
        → IsPortable false value
        → directive_row entry word source line d (b' ' ∷ quoted value)
          ≡ ok (record d { offer = record d.offer { entries = d.offer.entries ++ value ∷ [] } })
    unfolding directive_row
    row-entry new h =
        rw (read_quoted-last (reject malformed_value source line) value (codes "entry")) (
          rw
            (
              require_end-nil (reject unexpected_value source line),
              (require_portable_iff (reject invalid_field source line) path_wording value
                    (codes "entry") false).1
                  h,
              new,
            )
            refl)

  read_artifact-fields :
      (line : ℕ) (offer : WasmOffer)
      → read_artifact source line (b' ' ∷ artifact_fields offer)
        ≡ ok (offer.artifact_path, offer.sha256, [])
  unfolding read_artifact artifact_fields
  read_artifact-fields line offer =
      let r = reject malformed_value source line in
      rw (read_quoted-quoted r offer.artifact_path _ (codes "artifact"))
        (rw (read_quoted-last r offer.sha256 (codes "sha256")) refl)

  artifact_fields-IsLine :
      (offer : WasmOffer)
      → IsPortable true offer.artifact_path
      → is_sha256 offer.sha256 ≡ true
      → IsLine (artifact_fields offer)
  unfolding artifact_fields
  artifact_fields-IsLine offer path digest =
      IsLine-append (quoted offer.artifact_path) (b' ' ∷ quoted offer.sha256)
        (quoted-IsLine offer.artifact_path (identity-IsLine offer.artifact_path path.identity))
        (quoted-IsLine offer.sha256 (sha256-IsLine offer.sha256 digest))

  pub parse_rows-artifact :
      (offer : WasmOffer) (rest : Bytes) (n : ℕ) (d : Draft)
      → d.has_artifact ≡ false
      → IsPortable true offer.artifact_path
      → is_sha256 offer.sha256 ≡ true
      → parse_rows source
          (lines (codes "artifact" ++ (b' ' ∷ (artifact_fields offer ++ (b'\n' ∷ rest)))))
          n
          d
        ≡ parse_rows source (lines rest) (n + 1) (record d {
          offer = record d.offer { artifact_path = offer.artifact_path; sha256 = offer.sha256 };
          has_artifact = true;
        })
  unfolding codes is_space directive_row
  parse_rows-artifact offer rest n d absent path digest =
      parse_rows-row artifact b'a' (codes "rtifact") (artifact_fields offer) rest n d _ directives.4
        refl refl (artifact_fields-IsLine offer path digest)
        (rw (absent, directive_row)
          (rw (read_artifact-fields (n + 1) offer) (
            rw
              (
                require_end-nil (reject unexpected_value source (n + 1)),
                (require_portable_iff (reject invalid_field source (n + 1)) path_wording
                      offer.artifact_path (codes "artifact") true).1
                    path,
                (require_sha256_iff (reject invalid_field source (n + 1)) offer.sha256).1 digest,
              )
              refl)))

  parse_rows-nil : (n : ℕ) (d : Draft) → parse_rows source (lines []) n d ≡ ok (d, n)
  unfolding parse_rows
  parse_rows-nil n d = scan_rows-nil _ n d

  pub parse_rows-entries :
      (entries : List Bytes) (n : ℕ) (d : Draft)
      → AreEntries d.offer.entries entries
      → parse_rows source (lines (entry_lines entries)) n d
        ≡ ok (
          record d { offer = record d.offer { entries = d.offer.entries ++ entries } },
          n + length entries,
        )
  unfolding entry_lines codes is_space
  parse_rows-entries [] n d h = parse_rows-nil n d ∙ ground (arith, append-nil d.offer.entries)
  parse_rows-entries (x ∷ xs) n d h =
      parse_rows-field entry b'e' (codes "ntry") x (entry_lines xs) n d _ directives.5 refl refl
        h.0.identity (row-entry (n + 1) d (codes "entry") x h.1 h.0)
      ∙ parse_rows-entries xs (n + 1) _ h.2
      ∙ ground (arith, append_assoc d.offer.entries (x ∷ []) xs)

  pub parse_rows-sequence :
      (k : ℕ) (rest : Bytes) (n : ℕ) (d : Draft)
      → k < uint64_limit
      → d.has_sequence ≡ false
      → parse_rows source (lines (codes "sequence" ++ (b' ' ∷ (to_string k ++ (b'\n' ∷ rest))))) n d
        ≡ parse_rows source
            (lines rest)
            (n + 1)
            (record d { offer = record d.offer { sequence = k }; has_sequence = true })
  unfolding codes is_space directive_row
  parse_rows-sequence k rest n d h absent =
      parse_rows-row sequence b's' (codes "equence") (to_string k) rest n d _ directives.1 refl refl
        (to_string-IsLine k)
        (rw (absent, directive_row)
          (rw (read_sequence, read_word-to_string k)
            (rw
              (
                to_string-is_empty k,
                parse_unsigned_decimal-to_string k h,
                require_end-nil (reject unexpected_value source (n + 1)),
              )
              refl)))
