-- ===== src/Protocol/DescriptorSection.antt =====
-- src/protocol/descriptor_section.cpp and .hpp: the framing of the embedded descriptors.
pub mod Resolve
pub mod RoundTrip
mod Tests
use nekomata.Base.{
  ℕ, zero, suc, ◌+◌, ◌-◌, ◌*◌, ◌/◌, ◌%◌, Bool, true, false, not, ◌&&◌, List, [], ◌∷◌, ◌++◌, Option,
  none, some, ◌==◌, ltb, if◌then◌else◌, Result, ok, err, ◌>>=◌, guard, length, take, drop, all,
  get_or,
}
use nekomata.Text.{Bytes, codes, to_string, equal}
use nekomata.Protocol.GroupDescriptor.{GroupDescriptor, DescriptorError}
use nekomata.Protocol.GroupDescriptor.Parse.{parse_group_descriptor}
use nekomata.Protocol.GroupDescriptor.Print.{serialize_group_descriptor}

pub record DescriptorRecord : Type 0 where
  pub descriptor : GroupDescriptor
  pub offset : ℕ

-- A std::runtime_error of the framing, or the exception of the codec.
pub data SectionError : Type 0 where
  section_error : Bytes → SectionError
  descriptor_error : DescriptorError → SectionError

-- The four bytes of `value`, which is cast to std::uint32_t.
unfoldable pub u32_le : ℕ → Bytes
u32_le value = value % 256 ∷ value / 256 % 256 ∷ value / 65536 % 256 ∷ value / 16777216 % 256 ∷ []

unfoldable pub read_u32_le : Bytes → ℕ
read_u32_le bytes =
    get_or bytes 0 0
    + 256 * get_or bytes 1 0
    + 65536 * get_or bytes 2 0
    + 16777216 * get_or bytes 3 0

unfoldable pub record_source : Bytes → ℕ → Bytes
record_source source offset = source ++ codes " record at offset " ++ to_string offset

invalid : Bytes → ℕ → Bytes → SectionError
invalid source offset problem = section_error (
    codes "invalid descriptor section '"
    ++ source
    ++ codes "': record at offset "
    ++ to_string offset
    ++ problem)

-- The length at the head of the bytes left; none where only padding is left.
unfoldable pub record_length : Bytes → ℕ → Bytes → Result SectionError (Option ℕ)
unfolding invalid read_u32_le
record_length source offset bytes =
    let size = read_u32_le bytes in
    let padding = all (λ b. b == 0) bytes in
    let truncated = invalid source offset (codes " is truncated") in
    if ltb (length bytes) 4
    then (if padding then ok none else err truncated)
    else if size == 0
    then (if padding then ok none else err (invalid source offset (codes " has a zero length")))
    else if ltb (length bytes - 4) size
    then err truncated
    else ok (some size)

from_codec {ℓ} : {A : Type ℓ} → Result DescriptorError A → Result SectionError A
from_codec (ok a) = ok a
from_codec (err e) = err (descriptor_error e)

-- The loop, on fuel: each turn consumes a byte at least, so the number of bytes is enough.
unfoldable pub parse_records : Bytes → ℕ → ℕ → Bytes → Result SectionError (List DescriptorRecord)
unfolding record_length from_codec
parse_records source zero offset bytes = ok []
parse_records source (suc fuel) offset [] = ok []
parse_records source (suc fuel) offset (b ∷ bs) = record_length source offset (b ∷ bs) >>= λ head.
    elim head [
      | none ↦ ok []
      | some size ↦
          from_codec
            (parse_group_descriptor (take size (drop 4 (b ∷ bs))) (record_source source offset))
          >>= λ descriptor.
              parse_records source fuel (offset + 4 + size) (drop size (drop 4 (b ∷ bs)))
              >>= λ records. ok (record { descriptor = descriptor; offset = offset } ∷ records)
    ]

unfoldable pub parse_descriptor_section :
    Bytes → Bytes → Result SectionError (List DescriptorRecord)
unfolding parse_records
parse_descriptor_section bytes source = parse_records source (length bytes) 0 bytes

unfoldable pub serialize_descriptor_section : List GroupDescriptor → Result DescriptorError Bytes
unfolding u32_le
serialize_descriptor_section [] = ok []
serialize_descriptor_section (d ∷ ds) = do
  payload ← serialize_group_descriptor d
  rest ← serialize_descriptor_section ds
  ok (u32_le (length payload) ++ (payload ++ rest))
