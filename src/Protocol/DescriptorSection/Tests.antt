-- ===== src/Protocol/DescriptorSection/Tests.antt =====
-- Resolution of the records of src/protocol/descriptor_section.cpp at concrete values.
use nekomata.Base.{ℕ, ◌≡◌, ◌↔◌, refl, List, [], ◌∷◌, none, ok, err}
use nekomata.Text.{Bytes, codes, equal, equal_texts}
use nekomata.Protocol.GroupDescriptor.{GroupDescriptor}
use nekomata.Protocol.DescriptorSection.{DescriptorRecord}
use nekomata.Protocol.DescriptorSection.Resolve.{
  equal_hint, equal_descriptor, find_group, index_of, conflict, resolve_record, resolve_records,
  resolve_descriptor_records,
}
use nekomata.Protocol.DescriptorSection.Resolve.Agreement.{
  Agree, descriptors, resolve_descriptor_records-Agree,
}
use nekomata.Protocol.DescriptorSection.Resolve.Distinct.{
  Resolves, resolve_descriptor_records-Resolves,
}

abbrev declare : Bytes → ℕ → GroupDescriptor
declare id baseline = record {
  group_id = id;
  members = codes "a.cpp" ∷ [];
  publication_key = codes "key";
  baseline_sequence = baseline;
  compatibility_id = codes "c";
  abi_id = codes "x";
  generation_root_hint = none;
}

abbrev at_offset : GroupDescriptor → ℕ → DescriptorRecord
at_offset descriptor offset = record { descriptor = descriptor; offset = offset }

abbrev hot : GroupDescriptor
hot = declare (codes "hot") 1

abbrev cold : GroupDescriptor
cold = declare (codes "cold") 2

abbrev twice : List DescriptorRecord
twice = at_offset hot 0 ∷ at_offset cold 20 ∷ at_offset hot 60 ∷ []

twice-resolves : resolve_descriptor_records twice ≡ ok (hot ∷ cold ∷ [])
unfolding resolve_descriptor_records resolve_records resolve_record find_group equal_descriptor
    equal_texts equal_hint equal codes
twice-resolves = refl

conflict-throws :
    resolve_descriptor_records
      (at_offset cold 5 ∷ at_offset hot 9 ∷ at_offset (declare (codes "hot") 7) 90 ∷ [])
    ≡ err (conflict (codes "hot") 9 90)
unfolding resolve_descriptor_records resolve_records resolve_record find_group equal_descriptor
    equal_texts equal_hint equal codes index_of
conflict-throws = refl

resolve_descriptor_records-Resolves_example : Resolves [] twice (hot ∷ cold ∷ [])
resolve_descriptor_records-Resolves_example =
    resolve_descriptor_records-Resolves twice (hot ∷ cold ∷ []) twice-resolves

resolve_descriptor_records-Agree_example :
    ((ds : List GroupDescriptor) × (resolve_descriptor_records twice ≡ ok ds))
    ↔ Agree (descriptors twice) twice
resolve_descriptor_records-Agree_example = resolve_descriptor_records-Agree twice
