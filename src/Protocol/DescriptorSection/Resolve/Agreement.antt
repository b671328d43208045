-- ===== src/Protocol/DescriptorSection/Resolve/Agreement.antt =====
-- The records that resolve.
use nekomata.Base.{
  ℕ, ◌≡◌, refl, true, List, [], ◌∷◌, ◌++◌, Option, none, some, ok, All, sym, ◌∙◌, ap, ◌↔◌, map,
  append_assoc, ==_iff, Option-cases, inl, inr,
}
use nekomata.Text.{Bytes, equal_refl, equal_texts_iff}
use nekomata.Protocol.GroupDescriptor.{GroupDescriptor}
use nekomata.Protocol.DescriptorSection.{DescriptorRecord}
use nekomata.Protocol.DescriptorSection.Resolve.{
  equal_hint, equal_descriptor, find_group, resolve_record, resolve_records,
  resolve_descriptor_records,
}
use nekomata.Protocol.DescriptorSection.Resolve.Distinct.{
  find_group-first, find_group-congruent, resolve_record-Step, resolve_descriptor_records-Resolves,
}

abbrev pub descriptors : List DescriptorRecord → List GroupDescriptor
descriptors rs = map (λ r. r.descriptor) rs

-- Each record of `rs` repeats the first declaration that `ds` has for its group.
abbrev pub Agree : List GroupDescriptor → List DescriptorRecord → Type 0
Agree ds = All (λ r. find_group r.descriptor.group_id ds ≡ some r.descriptor)

equal_hint_refl : (a : Option Bytes) → equal_hint a a ≡ true
unfolding equal_hint
equal_hint_refl none = refl
equal_hint_refl (some a) = equal_refl a

equal_descriptor_refl : (d : GroupDescriptor) → equal_descriptor d d ≡ true
unfolding equal_descriptor
equal_descriptor_refl d =
    let same_baseline = (==_iff d.baseline_sequence d.baseline_sequence).1 refl in
    rw
      (
        equal_refl d.group_id,
        (equal_texts_iff d.members d.members).1 refl,
        equal_refl d.publication_key,
        same_baseline,
        equal_refl d.compatibility_id,
        equal_refl d.abi_id,
      )
      (equal_hint_refl d.generation_root_hint)

resolve_record-ok :
    (resolved : List GroupDescriptor) (offsets : List ℕ) (r : DescriptorRecord)
    (later : List GroupDescriptor)
    → find_group r.descriptor.group_id (resolved ++ later) ≡ some r.descriptor
    → (next : List GroupDescriptor × List ℕ) × (resolve_record resolved offsets r ≡ ok next)
unfolding resolve_record
resolve_record-ok resolved offsets r later agrees =
    elim (Option-cases (find_group r.descriptor.group_id resolved)) [
      | inl fresh ↦ (
        (resolved ++ (r.descriptor ∷ []), offsets ++ (r.offset ∷ [])),
        rw (fresh, resolve_record) refl,
      )
      | inr (d, found) ↦
          let p : some d ≡ some r.descriptor =
            sym (find_group-first r.descriptor.group_id resolved later d found) ∙ agrees in
          let known : find_group r.descriptor.group_id resolved ≡ some r.descriptor = found ∙ p in
          ((resolved, offsets), rw (known, equal_descriptor_refl r.descriptor, resolve_record) refl)
    ]

Agree-congruent :
    (ds es : List GroupDescriptor) (rs : List DescriptorRecord)
    → ((id : Bytes) → find_group id es ≡ find_group id ds)
    → Agree ds rs
    → Agree es rs
Agree-congruent ds es [] same agree = tt
Agree-congruent ds es (r ∷ rs) same agree =
    (same r.descriptor.group_id ∙ agree.0, Agree-congruent ds es rs same agree.1)

resolve_records-ok :
    (resolved : List GroupDescriptor) (offsets : List ℕ) (rs : List DescriptorRecord)
    → Agree (resolved ++ descriptors rs) rs
    → (ds : List GroupDescriptor) × (resolve_records resolved offsets rs ≡ ok ds)
unfolding resolve_records
resolve_records-ok resolved offsets [] agree = (resolved, refl)
resolve_records-ok resolved offsets (r ∷ rs) agree =
    let (next, first) =
      resolve_record-ok resolved offsets r (r.descriptor ∷ descriptors rs) agree.0 in
    let step = resolve_record-Step resolved offsets r next first in
    let same = λ (id : Bytes).
      find_group-congruent id next.0 (resolved ++ (r.descriptor ∷ [])) (descriptors rs) (step.1 id)
      ∙ ap (find_group id) (append_assoc resolved (r.descriptor ∷ []) (descriptors rs)) in
    let (ds, rest) = resolve_records-ok next.0 next.1 rs (Agree-congruent _ _ rs same agree.1) in
    (ds, rw first rest)

-- The records resolve exactly when each of them repeats, field by field, the first declaration
-- of its group.
pub resolve_descriptor_records-Agree :
    (rs : List DescriptorRecord)
    → ((ds : List GroupDescriptor) × (resolve_descriptor_records rs ≡ ok ds))
      ↔ Agree (descriptors rs) rs
unfolding resolve_descriptor_records
resolve_descriptor_records-Agree rs = (
  λ (ds, run).
      let found = resolve_descriptor_records-Resolves rs ds run in
      Agree-congruent ds (descriptors rs) rs (λ id. sym (found.same_groups id)) found.declared,
  λ agree. resolve_records-ok [] [] rs agree,
)
