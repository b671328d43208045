-- ===== src/Protocol/GenerationOffer/Print.antt =====
-- `serialize_generation_offer` of src/protocol/generation_offer.cpp.
use nekomata.Base.{List, [], ◌∷◌, ◌++◌, ok, ◌>>◌}
use nekomata.Text.{Bytes, codes, to_string, quoted}
use nekomata.Protocol.Scanner.{compose_magic_line}
use nekomata.Protocol.Codec.Rows.{field_line}
use nekomata.Protocol.GenerationOffer.{
  GenerationOffer, GenerationOfferMember, Parsed, format_name, format_version,
  validate_generation_offer,
}

-- The five fields of a `member` row, with single spaces between them.
unfoldable pub member_fields : GenerationOfferMember → Bytes
member_fields m =
    quoted m.member
    ++ (b' '
        ∷ (quoted m.object_path
            ++ (b' '
                ∷ (quoted m.sha256
                    ++ (b' '
                        ∷ (quoted m.source_identity ++ (b' ' ∷ quoted m.build_information)))))))

unfoldable pub member_lines : List GenerationOfferMember → Bytes → Bytes
unfolding member_fields
member_lines [] rest = rest
member_lines (m ∷ ms) rest =
    codes "member" ++ (b' ' ∷ (member_fields m ++ (b'\n' ∷ member_lines ms rest)))

unfoldable pub changed_input_lines : List Bytes → Bytes
changed_input_lines [] = []
changed_input_lines (input ∷ inputs) =
    field_line (codes "changed_input") input (changed_input_lines inputs)

unfoldable pub render : GenerationOffer → Bytes
unfolding member_lines changed_input_lines
render offer =
    compose_magic_line format_name format_version
    ++ (b'\n'
        ∷ field_line (codes "group_id") offer.group_id (
            codes "sequence"
            ++ (b' '
                ∷ (to_string offer.sequence
                    ++ (b'\n'
                        ∷ field_line (codes "generation_id") offer.generation_id (
                            field_line (codes "compatibility_id") offer.compatibility_id (
                              field_line (codes "abi_id") offer.abi_id (
                                member_lines offer.members
                                  (changed_input_lines offer.changed_inputs)))))))))

unfoldable pub serialize_generation_offer : GenerationOffer → Parsed Bytes
unfolding render
serialize_generation_offer offer = do
  validate_generation_offer offer (codes "<memory>")
  ok (render offer)
