-- ===== src/Protocol/DescriptorSection/Resolve/Distinct.antt =====
-- The groups that resolution leaves.
use nekomata.Base.{
  ℕ, ◌≡◌, refl, true, false, List, [], ◌∷◌, ◌++◌, Option, none, some, ok, err, arith, map, &&-true,
  ==_iff, append_assoc, append-nil, get_or, All, sym, ◌∙◌, ap, subst, bind-eq-ok, ok-injective,
  Bool-cases, Option-cases, inl, inr,
}
use nekomata.Text.{Bytes, equal, equal_iff, equal_refl, equal_texts_iff}
use nekomata.Protocol.GroupDescriptor.{GroupDescriptor}
use nekomata.Protocol.DescriptorSection.{DescriptorRecord}
use nekomata.Protocol.DescriptorSection.Resolve.{
  equal_hint, equal_descriptor, find_group, index_of, conflict, resolve_record, resolve_records,
  resolve_descriptor_records,
}

-- No two descriptors are of one group.
abbrev pub AreDistinct : List GroupDescriptor → Type 0
AreDistinct [] = Unit {0}
AreDistinct (d ∷ ds) = All (λ e. equal d.group_id e.group_id ≡ false) ds × AreDistinct ds

-- What the process declares under the id of `r` is what `r` declares.
abbrev pub IsDeclared : List GroupDescriptor → DescriptorRecord → Type 0
IsDeclared ds r = find_group r.descriptor.group_id ds ≡ some r.descriptor

equal_hint-eq : (a b : Option Bytes) → equal_hint a b ≡ true → a ≡ b
unfolding equal_hint
equal_hint-eq none none e = refl
equal_hint-eq (some a) (some b) e = ap some ((equal_iff a b).0 e)
equal_hint-eq none (some b) e = ground arith
equal_hint-eq (some a) none e = ground arith

equal_descriptor-eq : (a b : GroupDescriptor) → equal_descriptor a b ≡ true → a ≡ b
unfolding equal_descriptor
equal_descriptor-eq a b e =
    let (same_id, e1) = &&-true _ _ e in
    let (same_members, e2) = &&-true _ _ e1 in
    let (same_key, e3) = &&-true _ _ e2 in
    let (same_baseline, e4) = &&-true _ _ e3 in
    let (same_compatibility, e5) = &&-true _ _ e4 in
    let (same_abi, same_hint) = &&-true _ _ e5 in
    let p1 = (equal_iff a.group_id b.group_id).0 same_id in
    let p2 = (equal_texts_iff a.members b.members).0 same_members in
    let p3 = (equal_iff a.publication_key b.publication_key).0 same_key in
    let p4 = (==_iff a.baseline_sequence b.baseline_sequence).0 same_baseline in
    let p5 = (equal_iff a.compatibility_id b.compatibility_id).0 same_compatibility in
    let p6 = (equal_iff a.abi_id b.abi_id).0 same_abi in
    let p7 = equal_hint-eq a.generation_root_hint b.generation_root_hint same_hint in
    λ i. record {
      group_id = p1 i;
      members = p2 i;
      publication_key = p3 i;
      baseline_sequence = p4 i;
      compatibility_id = p5 i;
      abi_id = p6 i;
      generation_root_hint = p7 i;
    }

-- The first list answers, or else the second.
or_else : Option GroupDescriptor → Option GroupDescriptor → Option GroupDescriptor
or_else (some d) next = some d
or_else none next = next

find_group-append :
    (id : Bytes) (ds es : List GroupDescriptor)
    → find_group id (ds ++ es) ≡ or_else (find_group id ds) (find_group id es)
unfolding find_group or_else
find_group-append id [] es = refl
find_group-append id (d ∷ ds) es = ground (arith, find_group-append id ds es)

find_group-none :
    (id : Bytes) (c : GroupDescriptor) (ds : List GroupDescriptor)
    → find_group id (c ∷ ds) ≡ none
    → (equal c.group_id id ≡ false) × (find_group id ds ≡ none)
unfolding find_group
find_group-none id c ds fresh = ground (arith, fresh)

All-snoc :
    (P : GroupDescriptor → Type 0) (ds : List GroupDescriptor) (d : GroupDescriptor)
    → All P ds
    → P d
    → All P (ds ++ (d ∷ []))
All-snoc P [] d holds last = (last, tt)
All-snoc P (c ∷ ds) d holds last = (holds.0, All-snoc P ds d holds.1 last)

AreDistinct-append :
    (ds : List GroupDescriptor) (d : GroupDescriptor)
    → find_group d.group_id ds ≡ none
    → AreDistinct ds
    → AreDistinct (ds ++ (d ∷ []))
AreDistinct-append [] d fresh distinct = (tt, tt)
AreDistinct-append (c ∷ ds) d fresh distinct =
    let (other, later) = find_group-none d.group_id c ds fresh in
    (All-snoc _ ds d distinct.0 other, AreDistinct-append ds d later distinct.1)

or_else-none : (o : Option GroupDescriptor) → or_else o none ≡ o
unfolding or_else
or_else-none none = refl
or_else-none (some d) = refl

find_group-same :
    (id : Bytes) (ds : List GroupDescriptor) (d : GroupDescriptor)
    → find_group d.group_id ds ≡ some d
    → find_group id ds ≡ find_group id (ds ++ (d ∷ []))
unfolding find_group or_else
find_group-same id ds d found = sym (
    find_group-append id ds (d ∷ []) ∙ elim (Bool-cases (equal d.group_id id)) [
      | inl same ↦
          let known : find_group id ds ≡ some d =
            subst (λ x. find_group x ds ≡ some d) ((equal_iff d.group_id id).0 same) found in
          rw known refl
      | inr other ↦ rw other (or_else-none (find_group id ds))
    ])

pub find_group-congruent :
    (id : Bytes) (ds es rest : List GroupDescriptor)
    → find_group id ds ≡ find_group id es
    → find_group id (ds ++ rest) ≡ find_group id (es ++ rest)
find_group-congruent id ds es rest same =
    find_group-append id ds rest
    ∙ ap (λ o. or_else o (find_group id rest)) same
    ∙ sym (find_group-append id es rest)

find_group-new :
    (ds : List GroupDescriptor) (d : GroupDescriptor)
    → find_group d.group_id ds ≡ none
    → find_group d.group_id (ds ++ (d ∷ [])) ≡ some d
unfolding find_group or_else
find_group-new ds d fresh =
    find_group-append d.group_id ds (d ∷ []) ∙ rw (fresh, equal_refl d.group_id) refl

pub find_group-first :
    (id : Bytes) (ds es : List GroupDescriptor) (d : GroupDescriptor)
    → find_group id ds ≡ some d
    → find_group id (ds ++ es) ≡ some d
unfolding or_else
find_group-first id ds es d found =
    find_group-append id ds es ∙ ap (λ o. or_else o (find_group id es)) found

abbrev pub Step : List GroupDescriptor → List GroupDescriptor → GroupDescriptor → Type 0
Step resolved next d =
    (AreDistinct resolved → AreDistinct next)
    × ((id : Bytes) → find_group id next ≡ find_group id (resolved ++ (d ∷ [])))
    × (find_group d.group_id next ≡ some d)

pub resolve_record-Step :
    (resolved : List GroupDescriptor) (offsets : List ℕ) (r : DescriptorRecord)
    (next : List GroupDescriptor × List ℕ)
    → resolve_record resolved offsets r ≡ ok next
    → Step resolved next.0 r.descriptor
unfolding resolve_record
resolve_record-Step resolved offsets r next run =
    elim (Option-cases (find_group r.descriptor.group_id resolved)) [
      | inl fresh ↦
          let e : resolve_record resolved offsets r
              ≡ ok (resolved ++ (r.descriptor ∷ []), offsets ++ (r.offset ∷ [])) =
            rw (fresh, resolve_record) refl in
          subst (λ n. Step resolved n.0 r.descriptor) (ok-injective (sym e ∙ run))
            (
              AreDistinct-append resolved r.descriptor fresh,
              λ id. refl,
              find_group-new resolved r.descriptor fresh,
            )
      | inr (d, found) ↦ elim (Bool-cases (equal_descriptor d r.descriptor)) [
        | inl same ↦
            let e : resolve_record resolved offsets r ≡ ok (resolved, offsets) =
              rw (found, same, resolve_record) refl in
            let known : find_group r.descriptor.group_id resolved ≡ some r.descriptor =
              found ∙ ap some (equal_descriptor-eq d r.descriptor same) in
            subst (λ n. Step resolved n.0 r.descriptor) (ok-injective (sym e ∙ run))
              (λ distinct. distinct, λ id. find_group-same id resolved r.descriptor known, known)
        | inr other ↦
            let e : resolve_record resolved offsets r
                ≡ err (
                    conflict r.descriptor.group_id
                      (get_or offsets (index_of r.descriptor.group_id resolved) 0) r.offset) =
              rw (found, other, resolve_record) refl in
            cc
      ]
    ]

-- The groups are distinct, and each id stands for the first declaration that `first` lists.
pub record Resolves (first : List GroupDescriptor) (rs : List DescriptorRecord)
    (ds : List GroupDescriptor) : Type 0 where
  pub distinct : AreDistinct ds
  pub same_groups :
      (id : Bytes) → find_group id ds ≡ find_group id (first ++ map (λ r. r.descriptor) rs)
  pub declared : All (IsDeclared ds) rs

resolve_records-Resolves :
    (resolved : List GroupDescriptor) (offsets : List ℕ) (rs : List DescriptorRecord)
    (ds : List GroupDescriptor)
    → AreDistinct resolved
    → resolve_records resolved offsets rs ≡ ok ds
    → Resolves resolved rs ds
unfolding resolve_records or_else
resolve_records-Resolves resolved offsets [] ds distinct run =
    subst (λ x. Resolves resolved [] x) (ok-injective run)
      (record {
        distinct = distinct;
        same_groups = λ id. ap (find_group id) (sym (append-nil resolved));
        declared = tt;
      })
resolve_records-Resolves resolved offsets (r ∷ rs) ds distinct run =
    let (next, first, later) = bind-eq-ok (resolve_record resolved offsets r) _ run in
    let (keeps, same, known) = resolve_record-Step resolved offsets r next first in
    let rest = resolve_records-Resolves next.0 next.1 rs ds (keeps distinct) later in
    record {
      distinct = rest.distinct;
      same_groups = λ id.
          rest.same_groups id
          ∙ find_group-congruent id next.0 (resolved ++ (r.descriptor ∷ []))
              (map (λ x. x.descriptor) rs) (same id)
          ∙ ap (find_group id)
              (append_assoc resolved (r.descriptor ∷ []) (map (λ x. x.descriptor) rs));
      declared = (
        rest.same_groups r.descriptor.group_id
            ∙ find_group-append r.descriptor.group_id next.0 (map (λ x. x.descriptor) rs)
            ∙ ap (λ o. or_else o (find_group r.descriptor.group_id (map (λ x. x.descriptor) rs)))
                known,
        rest.declared,
      );
    }

-- Where the records resolve, the result has one descriptor for each group, every record's
-- descriptor is the one the result has for its group id, and the result has, for every id, the
-- first descriptor that the records have for it (so it has no group of its own).
pub resolve_descriptor_records-Resolves :
    (rs : List DescriptorRecord) (ds : List GroupDescriptor)
    → resolve_descriptor_records rs ≡ ok ds
    → Resolves [] rs ds
unfolding resolve_descriptor_records
resolve_descriptor_records-Resolves rs ds run = resolve_records-Resolves [] [] rs ds tt run
