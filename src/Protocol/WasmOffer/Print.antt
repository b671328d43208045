-- ===== src/Protocol/WasmOffer/Print.antt =====
-- `serialize_wasm_offer` of src/protocol/wasm_offer.cpp.
use nekomata.Base.{List, [], ◌∷◌, ◌++◌, ok, ◌>>◌}
use nekomata.Text.{Bytes, codes, to_string, quoted}
use nekomata.Protocol.Scanner.{compose_magic_line}
use nekomata.Protocol.Codec.Rows.{field_line}
use nekomata.Protocol.WasmOffer.{
  WasmOffer, Parsed, format_name, format_version, validate_wasm_offer,
}

unfoldable pub entry_lines : List Bytes → Bytes
entry_lines [] = []
entry_lines (entry ∷ entries) = field_line (codes "entry") entry (entry_lines entries)

-- The two fields of the `artifact` row.
unfoldable pub artifact_fields : WasmOffer → Bytes
artifact_fields offer = quoted offer.artifact_path ++ (b' ' ∷ quoted offer.sha256)

-- The rows behind the header.
unfoldable pub body : WasmOffer → Bytes
unfolding entry_lines artifact_fields
body offer = field_line (codes "group_id") offer.group_id (
    codes "sequence"
    ++ (b' '
        ∷ (to_string offer.sequence
            ++ (b'\n'
                ∷ field_line (codes "generation_id") offer.generation_id (
                    field_line (codes "abi_id") offer.abi_id (
                      codes "artifact"
                      ++ (b' '
                          ∷ (artifact_fields offer ++ (b'\n' ∷ entry_lines offer.entries)))))))))

unfoldable pub render : WasmOffer → Bytes
unfolding body
render offer = compose_magic_line format_name format_version ++ (b'\n' ∷ body offer)

unfoldable pub serialize_wasm_offer : WasmOffer → Parsed Bytes
unfolding render
serialize_wasm_offer offer = do validate_wasm_offer offer (codes "<memory>"); ok (render offer)
