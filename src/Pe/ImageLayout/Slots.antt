-- ===== src/Pe/ImageLayout/Slots.antt =====
-- The trampoline loop: one slot for each symbol that a site wants, behind the slots before it.
use nekomata.Base.{
  ℕ, ◌+◌, ◌*◌, ◌%◌, ◌≤◌, ◌<◌, ◌≡◌, refl, ap, ◌∙◌, sym, subst, Bool, true, false, ◌&&◌, ◌||◌, List,
  [], ◌∷◌, ◌++◌, map, map-append, length, Option, none, some, arith, Bool-cases, inl, inr, ◌==◌,
  any,
}
use native.Mathlib.Nat.{mod-eq_of_lt}
use nekomata.Text.{uint64_limit}
use nekomata.Pe.ObjectFile.{Symbol, Relocation}
use nekomata.Pe.ImageLayout.{
  align_up, section_align, trampoline_size, uint32_limit, SectionPlacement, TrampolineSlot,
  Slotting, slot_for, slots_from, wanted,
}
use nekomata.Pe.ImageLayout.Placed.{align_up-bounds}

-- The slots in their order, aligned, each behind the one before; `end_` is the end of the last.
abbrev pub Slotted : ℕ → List TrampolineSlot → ℕ → Type 0
Slotted at [] end_ = at ≡ end_
Slotted at (t ∷ ts) end_ =
    (at ≤ t.offset_in_image)
    × (t.offset_in_image < at + section_align)
    × (t.offset_in_image % section_align ≡ 0)
    × Slotted (t.offset_in_image + trampoline_size) ts end_

Slotted-append :
    (ts : List TrampolineSlot) (at end_ behind : ℕ) (t : TrampolineSlot)
    → Slotted at ts end_
    → Slotted end_ (t ∷ []) behind
    → Slotted at (ts ++ t ∷ []) behind
Slotted-append [] at end_ behind t e last = subst (λ k. Slotted k (t ∷ []) behind) (sym e) last
Slotted-append (u ∷ us) at end_ behind t (le, lt, aligned, rest) last = (
  le,
  lt,
  aligned,
  Slotted-append us (u.offset_in_image + trampoline_size) end_ behind t rest last,
)

-- A turn takes 28 bytes at most.
slot_for-Slotted :
    (base : ℕ) (s : Slotting) (index : ℕ) (w : Option Symbol)
    → s.image_size + 28 ≤ uint32_limit
    → Slotted base s.trampolines s.image_size
    → Slotted base (slot_for s index w).trampolines (slot_for s index w).image_size
      × ((slot_for s index w).image_size ≤ s.image_size + 28)
unfolding slot_for
slot_for-Slotted base s index none room slotted = (slotted, omega arith)
slot_for-Slotted base s index (some symbol) room slotted =
    elim (Bool-cases (any (λ i. i == index) s.slotted)) [
      | inl here ↦ rw here (slotted, omega arith)
      | inr new ↦
          let (behind, near, aligned) =
            align_up-bounds s.image_size section_align (omega arith) (omega arith) in
          let offset : align_up s.image_size section_align % uint32_limit
              ≡ align_up s.image_size section_align =
            mod-eq_of_lt (omega (arith, near)) in
          let size : (align_up s.image_size section_align + trampoline_size) % uint64_limit
              ≡ align_up s.image_size section_align + trampoline_size =
            mod-eq_of_lt (omega (arith, near)) in
          rw (new, offset, size)
            (
              Slotted-append s.trampolines base s.image_size _ _ slotted
                  (behind, near, aligned, refl),
              omega (arith, near),
            )
    ]

pub slots_from-Slotted :
    (symbols : List Symbol) (code : List SectionPlacement) (base : ℕ) (rels : List Relocation)
    (s : Slotting)
    → s.image_size + length rels * 28 ≤ uint32_limit
    → Slotted base s.trampolines s.image_size
    → Slotted base
        (slots_from symbols code s rels).trampolines
        (slots_from symbols code s rels).image_size
      × ((slots_from symbols code s rels).image_size ≤ s.image_size + length rels * 28)
unfolding slots_from
slots_from-Slotted symbols code base [] s room slotted = (slotted, omega arith)
slots_from-Slotted symbols code base (rel ∷ rels) s room slotted =
    let (next, low) =
      slot_for-Slotted base s rel.symbol_index (wanted symbols code rel) (omega arith) slotted in
    let (rest, low') =
      slots_from-Slotted symbols code base rels
        (slot_for s rel.symbol_index (wanted symbols code rel)) (omega (arith, low)) next in
    (rest, omega (arith, low, low'))

abbrev pub is_wanted : Option Symbol → Bool
is_wanted none = false
is_wanted (some symbol) = true

-- Whether a site wants a slot for this symbol.
abbrev pub wants : List Symbol → List SectionPlacement → ℕ → Relocation → Bool
wants symbols code index rel = rel.symbol_index == index && is_wanted (wanted symbols code rel)

abbrev pub Distinct : List ℕ → Type 0
Distinct [] = Unit {0}
Distinct (x ∷ xs) = (any (λ i. i == x) xs ≡ false) × Distinct xs

any-snoc :
    (index x : ℕ) (xs : List ℕ)
    → any (λ i. i == index) (xs ++ x ∷ []) ≡ (any (λ i. i == index) xs || x == index)
any-snoc index x [] = ground arith
any-snoc index x (y ∷ ys) = ground (arith, any-snoc index x ys)

Distinct-snoc :
    (x : ℕ) (xs : List ℕ) → Distinct xs → any (λ i. i == x) xs ≡ false → Distinct (xs ++ x ∷ [])
Distinct-snoc x [] d new = (refl, tt)
Distinct-snoc x (y ∷ ys) (apart, d) new =
    (any-snoc y x ys ∙ ground (arith, apart), Distinct-snoc x ys d (ground (arith, new)))

slot_for-slotted :
    (s : Slotting) (at index : ℕ) (w : Option Symbol)
    → any (λ i. i == index) (slot_for s at w).slotted
      ≡ (any (λ i. i == index) s.slotted || (at == index && is_wanted w))
unfolding slot_for
slot_for-slotted s at index none = ground arith
slot_for-slotted s at index (some symbol) = elim (Bool-cases (any (λ i. i == at) s.slotted)) [
  | inl here ↦
      let again : at ≡ index → any (λ i. i == index) s.slotted ≡ true =
        λ same. subst (λ k. any (λ i. i == k) s.slotted ≡ true) same here in
      rw here (ground (arith, again))
  | inr new ↦ rw new (any-snoc index at s.slotted ∙ ground arith)
]

slot_for-Distinct :
    (s : Slotting) (at : ℕ) (w : Option Symbol)
    → Distinct s.slotted
    → Distinct (slot_for s at w).slotted
unfolding slot_for
slot_for-Distinct s at none d = d
slot_for-Distinct s at (some symbol) d = elim (Bool-cases (any (λ i. i == at) s.slotted)) [
  | inl here ↦ rw here d
  | inr new ↦ rw new (Distinct-snoc at s.slotted d new)
]

-- What the loop has seen are the symbols of its slots.
slot_for-indices :
    (s : Slotting) (at : ℕ) (w : Option Symbol)
    → map (λ (t : TrampolineSlot). t.symbol_index) s.trampolines ≡ s.slotted
    → map (λ (t : TrampolineSlot). t.symbol_index) (slot_for s at w).trampolines
      ≡ (slot_for s at w).slotted
unfolding slot_for
slot_for-indices s at none e = e
slot_for-indices s at (some symbol) e = elim (Bool-cases (any (λ i. i == at) s.slotted)) [
  | inl here ↦ rw here e
  | inr new ↦ rw new (
      map-append (λ (t : TrampolineSlot). t.symbol_index) s.trampolines _
      ∙ ap (λ xs. xs ++ at ∷ []) e)
]

module _ (symbols : List Symbol) (code : List SectionPlacement) where
  pub slots_from-slotted :
      (rels : List Relocation) (s : Slotting) (index : ℕ)
      → any (λ i. i == index) (slots_from symbols code s rels).slotted
        ≡ (any (λ i. i == index) s.slotted || any (wants symbols code index) rels)
  unfolding slots_from
  slots_from-slotted [] s index = ground arith
  slots_from-slotted (rel ∷ rels) s index =
      let w = wanted symbols code rel in
      slots_from-slotted rels (slot_for s rel.symbol_index w) index
      ∙ rw (slot_for-slotted s rel.symbol_index index w) (ground arith)

  pub slots_from-Distinct :
      (rels : List Relocation) (s : Slotting)
      → map (λ (t : TrampolineSlot). t.symbol_index) s.trampolines ≡ s.slotted
      → Distinct s.slotted
      → (map (λ (t : TrampolineSlot). t.symbol_index) (slots_from symbols code s rels).trampolines
          ≡ (slots_from symbols code s rels).slotted)
        × Distinct (slots_from symbols code s rels).slotted
  unfolding slots_from
  slots_from-Distinct [] s e d = (e, d)
  slots_from-Distinct (rel ∷ rels) s e d =
      let w = wanted symbols code rel in
      slots_from-Distinct rels (slot_for s rel.symbol_index w)
        (slot_for-indices s rel.symbol_index w e) (slot_for-Distinct s rel.symbol_index w d)
