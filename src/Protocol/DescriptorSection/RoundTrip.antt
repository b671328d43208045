-- ===== src/Protocol/DescriptorSection/RoundTrip.antt =====
-- `parse_descriptor_section` after `serialize_descriptor_section`.
use nekomata.Base.{
  ℕ, zero, suc, ◌+◌, ◌<◌, ◌≤◌, ◌≡◌, refl, sym, ap, ◌∙◌, subst, List, [], ◌∷◌, ◌++◌, map, some,
  arith, ok, length, All, bind-eq-ok, ok-injective, length-append, take-length_append,
  drop-length_append,
}
use nekomata.Text.{Bytes, codes, uint64_limit}
use nekomata.Protocol.GroupDescriptor.{GroupDescriptor, validate_group_descriptor}
use nekomata.Protocol.GroupDescriptor.Parse.{parse_group_descriptor}
use nekomata.Protocol.GroupDescriptor.Parse.RoundTrip.{parse_group_descriptor-serialize}
use nekomata.Protocol.GroupDescriptor.Print.{serialize_group_descriptor, render}
use nekomata.Protocol.Scanner.{compose_magic_line}
use nekomata.Protocol.DescriptorSection.{
  DescriptorRecord, u32_le, read_u32_le, record_source, record_length, from_codec, parse_records,
  parse_descriptor_section, serialize_descriptor_section,
}

-- Descriptors whose payload has a length that fits the frame's, and that read back.
abbrev pub Fits : GroupDescriptor → Type 0
Fits d = (d.baseline_sequence < uint64_limit) × (length (render d) < 4294967296)

read_u32_le-u32_le : (n : ℕ) (rest : Bytes) → n < 4294967296 → read_u32_le (u32_le n ++ rest) ≡ n
unfolding read_u32_le u32_le
read_u32_le-u32_le n rest small = omega arith

record_length-frame :
    (source payload rest : Bytes) (offset : ℕ)
    → length payload < 4294967296
    → 0 < length payload
    → record_length source offset (u32_le (length payload) ++ (payload ++ rest))
      ≡ ok (some (length payload))
unfolding record_length u32_le
record_length-frame source payload rest offset small some_byte =
    rw (read_u32_le-u32_le (length payload) (payload ++ rest) small)
      (ground (arith, length-append payload rest, sizes))
  where
    sizes : length (u32_le (length payload) ++ (payload ++ rest)) ≡ 4 + length (payload ++ rest)
    sizes =
        length-append (u32_le (length payload)) (payload ++ rest) ∙ (unfold u32_le in omega arith)

-- The parse of one frame, and of what stands behind it.
parse_records-frame :
    (source payload rest : Bytes) (fuel offset : ℕ) (d : GroupDescriptor)
    (records : List DescriptorRecord)
    → length payload < 4294967296
    → 0 < length payload
    → parse_group_descriptor payload (record_source source offset) ≡ ok d
    → parse_records source fuel (offset + 4 + length payload) rest ≡ ok records
    → parse_records source (suc fuel) offset (u32_le (length payload) ++ (payload ++ rest))
      ≡ ok (record { descriptor = d; offset = offset } ∷ records)
unfolding parse_records u32_le
parse_records-frame source payload rest fuel offset d records small some_byte parsed later =
    rw
      (
        record_length-frame source payload rest offset small some_byte,
        take-length_append payload rest,
        drop-length_append payload rest,
        parsed,
        from_codec,
        later,
      )
      refl

-- A payload is never empty.
render-length : (d : GroupDescriptor) → 0 < length (render d)
unfolding render compose_magic_line codes
render-length d = omega arith

serialize-render :
    (d : GroupDescriptor) {payload : Bytes}
    → serialize_group_descriptor d ≡ ok payload
    → payload ≡ render d
unfolding serialize_group_descriptor
serialize-render d e =
    let (u, valid, printed) =
      bind-eq-ok (validate_group_descriptor d (codes "<memory>")) (λ _. ok (render d)) e in
    sym (ok-injective printed)

-- The bytes of a section are one frame, and the rest.
serialize-cons :
    (d : GroupDescriptor) (ds : List GroupDescriptor) (bytes : Bytes)
    → serialize_descriptor_section (d ∷ ds) ≡ ok bytes
    → (payload : Bytes) × (rest : Bytes) × (serialize_group_descriptor d ≡ ok payload)
      × (serialize_descriptor_section ds ≡ ok rest)
      × (u32_le (length payload) ++ (payload ++ rest) ≡ bytes)
unfolding serialize_descriptor_section
serialize-cons d ds bytes e =
    let (payload, one, e1) = bind-eq-ok (serialize_group_descriptor d) _ e in
    let (rest, others, e2) = bind-eq-ok (serialize_descriptor_section ds) _ e1 in
    (payload, rest, one, others, ok-injective e2)

frame-length :
    (payload rest : Bytes)
    → length (u32_le (length payload) ++ (payload ++ rest)) ≡ 4 + length payload + length rest
unfolding u32_le
frame-length payload rest = omega (arith, length-append payload rest)

ParsesTo : Bytes → ℕ → ℕ → Bytes → List GroupDescriptor → Type 0
ParsesTo source fuel offset bytes ds =
    (records : List DescriptorRecord) × (parse_records source fuel offset bytes ≡ ok records)
    × (map (λ r. r.descriptor) records ≡ ds)

parse_records-nil : (source : Bytes) (fuel offset : ℕ) → parse_records source fuel offset [] ≡ ok []
unfolding parse_records
parse_records-nil source zero offset = refl
parse_records-nil source (suc fuel) offset = refl

parse_records-cons :
    (d : GroupDescriptor) (ds : List GroupDescriptor) (source payload rest : Bytes)
    (fuel offset : ℕ)
    → Fits d
    → serialize_group_descriptor d ≡ ok payload
    → ParsesTo source fuel (offset + 4 + length payload) rest ds
    → ParsesTo source (suc fuel) offset (u32_le (length payload) ++ (payload ++ rest)) (d ∷ ds)
unfolding ParsesTo
parse_records-cons d ds source payload rest fuel offset (low, small) one (records, parsed, same) =
    let printed = serialize-render d one in
    (
      record { descriptor = d; offset = offset } ∷ records,
      parse_records-frame source payload rest fuel offset d records
          (omega (arith, ap length printed)) (omega (arith, ap length printed, render-length d))
          (parse_group_descriptor-serialize (record_source source offset) d low one) parsed,
      ap (◌∷◌ d) same,
    )

parse_records-serialize :
    (ds : List GroupDescriptor) (source bytes : Bytes) (fuel offset : ℕ)
    → All Fits ds
    → serialize_descriptor_section ds ≡ ok bytes
    → length bytes ≤ fuel
    → ParsesTo source fuel offset bytes ds
parse_records-serialize [] source bytes fuel offset fits e enough =
    unfold ParsesTo in
    unfold serialize_descriptor_section in
    ([], rw (← ok-injective e) (parse_records-nil source fuel offset), refl)
parse_records-serialize (d ∷ ds) source bytes zero offset fits e enough =
    let (payload, rest, one, others, same) = serialize-cons d ds bytes e in
    absurd (omega (arith, enough, ap length same, frame-length payload rest))
parse_records-serialize (d ∷ ds) source bytes (suc fuel) offset (here, fits) e enough =
    let (payload, rest, one, others, same) = serialize-cons d ds bytes e in
    subst (λ (s : Bytes). ParsesTo source (suc fuel) offset s (d ∷ ds)) same
      (parse_records-cons d ds source payload rest fuel offset here one (
        parse_records-serialize ds source rest fuel (offset + 4 + length payload) fits others
          (omega (arith, enough, ap length same, frame-length payload rest))))

-- A section that serializes parses back to the same descriptors in order, if each baseline sequence
-- fits std::uint64_t and each payload's length fits std::uint32_t.
pub parse_descriptor_section-serialize :
    (ds : List GroupDescriptor) (source bytes : Bytes)
    → All Fits ds
    → serialize_descriptor_section ds ≡ ok bytes
    → (records : List DescriptorRecord) × (parse_descriptor_section bytes source ≡ ok records)
      × (map (λ r. r.descriptor) records ≡ ds)
unfolding parse_descriptor_section ParsesTo
parse_descriptor_section-serialize ds source bytes fits e =
    parse_records-serialize ds source bytes (length bytes) 0 fits e (omega arith)
