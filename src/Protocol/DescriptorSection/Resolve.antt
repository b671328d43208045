-- ===== src/Protocol/DescriptorSection/Resolve.antt =====
-- src/protocol/descriptor_section.cpp: one descriptor for each group among the records.
pub mod Agreement
pub mod Distinct
use nekomata.Base.{
  ℕ, suc, Bool, true, false, ◌&&◌, List, [], ◌∷◌, ◌++◌, Option, none, some, ◌==◌, if◌then◌else◌,
  Result, ok, err, ◌>>=◌, get_or,
}
use nekomata.Text.{Bytes, codes, to_string, equal, equal_texts}
use nekomata.Protocol.GroupDescriptor.{GroupDescriptor}
use nekomata.Protocol.DescriptorSection.{DescriptorRecord, SectionError, section_error}

unfoldable pub equal_hint : Option Bytes → Option Bytes → Bool
equal_hint none none = true
equal_hint (some a) (some b) = equal a b
equal_hint none (some b) = false
equal_hint (some a) none = false

-- The defaulted `operator==`, member by member.
unfoldable pub equal_descriptor : GroupDescriptor → GroupDescriptor → Bool
unfolding equal_hint
equal_descriptor a b =
    equal a.group_id b.group_id
    && (equal_texts a.members b.members
        && (equal a.publication_key b.publication_key
            && ((a.baseline_sequence == b.baseline_sequence)
                && (equal a.compatibility_id b.compatibility_id
                    && (equal a.abi_id b.abi_id
                        && equal_hint a.generation_root_hint b.generation_root_hint)))))

-- The `std::find_if` by group id, and the index of what it finds.
unfoldable pub find_group : Bytes → List GroupDescriptor → Option GroupDescriptor
find_group id [] = none
find_group id (d ∷ ds) = if equal d.group_id id then some d else find_group id ds

unfoldable pub index_of : Bytes → List GroupDescriptor → ℕ
index_of id [] = 0
index_of id (d ∷ ds) = if equal d.group_id id then 0 else suc (index_of id ds)

unfoldable pub conflict : Bytes → ℕ → ℕ → SectionError
conflict id first second = section_error (
    codes "conflicting embedded descriptors for group '"
    ++ id
    ++ codes "' at offsets "
    ++ to_string first
    ++ codes " and "
    ++ to_string second)

-- One record: a new group is appended, an identical duplicate is skipped.
unfoldable pub resolve_record :
    List GroupDescriptor
    → List ℕ
    → DescriptorRecord
    → Result SectionError (List GroupDescriptor × List ℕ)
unfolding find_group equal_descriptor index_of conflict
resolve_record resolved offsets r = elim (find_group r.descriptor.group_id resolved) [
  | none ↦ ok (resolved ++ (r.descriptor ∷ []), offsets ++ (r.offset ∷ []))
  | some found ↦
      if equal_descriptor found r.descriptor
      then ok (resolved, offsets)
      else err (
          conflict r.descriptor.group_id
            (get_or offsets (index_of r.descriptor.group_id resolved) 0) r.offset)
]

unfoldable pub resolve_records :
    List GroupDescriptor
    → List ℕ
    → List DescriptorRecord
    → Result SectionError (List GroupDescriptor)
unfolding resolve_record
resolve_records resolved offsets [] = ok resolved
resolve_records resolved offsets (r ∷ rs) =
    resolve_record resolved offsets r >>= λ next. resolve_records next.0 next.1 rs

unfoldable pub resolve_descriptor_records :
    List DescriptorRecord → Result SectionError (List GroupDescriptor)
unfolding resolve_records
resolve_descriptor_records = resolve_records [] []
