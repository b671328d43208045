-- ===== src/Protocol/GroupDescriptor/Print.antt =====
-- `serialize_group_descriptor` of src/protocol/group_descriptor.cpp.
use nekomata.Base.{List, [], ◌∷◌, ◌++◌, Option, none, some, ok, ◌>>◌}
use nekomata.Text.{Bytes, codes, to_string}
use nekomata.Protocol.Scanner.{compose_magic_line}
use nekomata.Protocol.Codec.Rows.{field_line}
use nekomata.Protocol.GroupDescriptor.{
  GroupDescriptor, Parsed, format_name, format_version, validate_group_descriptor,
}

unfoldable pub member_lines : List Bytes → Bytes
member_lines [] = []
member_lines (m ∷ ms) = field_line (codes "member") m (member_lines ms)

unfoldable pub hint_line : Option Bytes → Bytes → Bytes
hint_line none rest = rest
hint_line (some hint) rest = field_line (codes "generation_root_hint") hint rest

unfoldable pub render : GroupDescriptor → Bytes
unfolding member_lines hint_line
render d =
    compose_magic_line format_name format_version
    ++ (b'\n'
        ∷ field_line (codes "group_id") d.group_id (
            field_line (codes "publication_key") d.publication_key (
              codes "baseline_sequence"
              ++ (b' '
                  ∷ (to_string d.baseline_sequence
                      ++ (b'\n'
                          ∷ field_line (codes "compatibility_id") d.compatibility_id (
                              field_line (codes "abi_id") d.abi_id
                                (hint_line d.generation_root_hint (member_lines d.members)))))))))

unfoldable pub serialize_group_descriptor : GroupDescriptor → Parsed Bytes
unfolding render
serialize_group_descriptor d = do validate_group_descriptor d (codes "<memory>"); ok (render d)
