-- ===== src/Pe/ImageLayout/Regions.antt =====
-- The whole plan: it places what it should, and nothing overlaps.
use nekomata.Base.{
  ℕ, ◌+◌, ◌*◌, ◌≤◌, ◌≡◌, refl, sym, subst, Bool, not, ◌∷◌, [], ◌++◌, List, map, length, arith, All,
  any, ◌==◌, ok, ok-injective, bind-eq-ok, guard, ◌↔◌, ◌∙◌,
}
use nekomata.Pe.ObjectFile.{Section, ObjectFile}
use nekomata.Pe.ImageLayout.{
  section_align, unwind_align, trampoline_size, uint32_limit, is_code, unwind_section,
  SectionPlacement, TrampolineSlot, ImageLayout, Slotting, place_code, place_unwind, no_code,
  laid_out, plan_image,
}
use nekomata.Pe.ImageLayout.Placed.{Placed, demand, place_code-Placed, place_unwind-Placed}
use nekomata.Pe.ImageLayout.Imports.{HasSlot, SomeAsks, SomeAsks-iff, HasSlot-iff}
use nekomata.Pe.ImageLayout.Slots.{
  Slotted, Distinct, wants, slots_from-Slotted, slots_from-slotted, slots_from-Distinct,
}

-- What an image layout promises: the code sections in the order of the object, the unwind sections
-- behind them, and the trampolines at its end, each where its alignment first allows.
pub record IsLaid (obj : ObjectFile) (plan : ImageLayout) : Type 0 where
  pub code_end : ℕ
  pub unwind_end : ℕ
  pub code : Placed is_code section_align 0 obj.sections plan.code code_end
  pub unwind : Placed unwind_section unwind_align code_end obj.sections plan.unwind unwind_end
  pub trampolines : Slotted unwind_end plan.trampolines plan.image_size

-- The image of such an object takes fewer than 2 ^ 32 bytes.
abbrev pub Fits : ObjectFile → Type 0
Fits obj = demand obj.sections + demand obj.sections + length obj.relocations * 28 ≤ uint32_limit

plan_image-parts :
    (obj : ObjectFile) {plan : ImageLayout}
    → plan_image obj ≡ ok plan
    → (placed : ℕ × List SectionPlacement) × (place_code 0 obj.sections ≡ ok placed)
      × (laid_out obj placed.1 placed.0 ≡ plan)
unfolding plan_image
plan_image-parts obj e =
    let (placed, first, e') = bind-eq-ok (place_code 0 obj.sections) _ e in
    let (u, some_code, e'') = bind-eq-ok (guard (not (no_code placed.1)) _) _ e' in
    (placed, first, ok-injective e'')

laid_out-IsLaid :
    (obj : ObjectFile) (placed : ℕ × List SectionPlacement)
    → Fits obj
    → place_code 0 obj.sections ≡ ok placed
    → IsLaid obj (laid_out obj placed.1 placed.0)
unfolding laid_out
laid_out-IsLaid obj placed fits e =
    let (code, low) = place_code-Placed obj.sections 0 (omega (arith, fits)) e in
    let (unwind, low') = place_unwind-Placed obj.sections placed.0 (omega (arith, fits, low)) in
    let start : Slotting = record {
      slotted = [];
      image_size = (place_unwind placed.0 obj.sections).0;
      trampolines = [];
    } in
    let (slotted, low'') =
      slots_from-Slotted obj.symbols placed.1 start.image_size obj.relocations start
        (omega (arith, fits, low, low')) refl in
    record {
      code_end = placed.0;
      unwind_end = start.image_size;
      code = code;
      unwind = unwind;
      trampolines = slotted;
    }

-- The plan of an object whose sections and slots fit in 2 ^ 32 bytes places exactly the text and
-- read-only sections, then exactly the unwind sections, in the order of the object, and then the
-- trampolines; each lies at its alignment, as near behind the one before as that allows, with its
-- whole size, and the image ends where the last one does.
pub plan_image-IsLaid :
    (obj : ObjectFile) {plan : ImageLayout} → Fits obj → plan_image obj ≡ ok plan → IsLaid obj plan
plan_image-IsLaid obj fits e =
    let (placed, first, same) = plan_image-parts obj e in
    subst (IsLaid obj) same (laid_out-IsLaid obj placed fits first)

-- The bytes that something takes: where they begin, and how many.
abbrev pub Region : Type 0
Region = ℕ × ℕ

-- Each region ends before the later ones begin, and inside the image.
abbrev pub Apart : List Region → ℕ → Type 0
Apart [] size = Unit {0}
Apart (r ∷ rs) size = All (λ (q : Region). r.0 + r.1 ≤ q.0) rs × (r.0 + r.1 ≤ size) × Apart rs size

abbrev pub placement_region : SectionPlacement → Region
placement_region p = (p.offset, p.size)

abbrev pub slot_region : TrampolineSlot → Region
slot_region t = (t.offset_in_image, trampoline_size)

abbrev pub regions : ImageLayout → List Region
regions plan =
    map placement_region plan.code
    ++ (map placement_region plan.unwind ++ map slot_region plan.trampolines)

-- Regions that begin at `at` or later, in a chain up to `size`.
Chain : ℕ → List Region → ℕ → Type 0
Chain at [] size = at ≤ size
Chain at (r ∷ rs) size = (at ≤ r.0) × Chain (r.0 + r.1) rs size

Chain-le : (rs : List Region) (at size : ℕ) → Chain at rs size → at ≤ size
unfolding Chain
Chain-le [] at size c = c
Chain-le (r ∷ rs) at size (le, c) = omega (arith, le, Chain-le rs (r.0 + r.1) size c)

Chain-behind :
    (rs : List Region) (k at size : ℕ)
    → k ≤ at
    → Chain at rs size
    → All (λ (q : Region). k ≤ q.0) rs
unfolding Chain
Chain-behind [] k at size below c = tt
Chain-behind (r ∷ rs) k at size below (le, c) =
    (omega (arith, le), Chain-behind rs k (r.0 + r.1) size (omega (arith, le)) c)

Chain-Apart : (rs : List Region) (at size : ℕ) → Chain at rs size → Apart rs size
unfolding Chain
Chain-Apart [] at size c = tt
Chain-Apart (r ∷ rs) at size (le, c) = (
  Chain-behind rs (r.0 + r.1) (r.0 + r.1) size (omega arith) c,
  Chain-le rs (r.0 + r.1) size c,
  Chain-Apart rs (r.0 + r.1) size c,
)

Slotted-Chain :
    (ts : List TrampolineSlot) (at size : ℕ)
    → Slotted at ts size
    → Chain at (map slot_region ts) size
unfolding Chain
Slotted-Chain [] at size e = omega (arith, e)
Slotted-Chain (t ∷ ts) at size (le, lt, aligned, rest) =
    (le, Slotted-Chain ts (t.offset_in_image + trampoline_size) size rest)

Placed-Chain :
    {chosen : Section → Bool} {floor at end_ : ℕ} {secs : List Section} {ps : List SectionPlacement}
    (rs : List Region) (size : ℕ)
    → Placed chosen floor at secs ps end_
    → Chain end_ rs size
    → Chain at (map placement_region ps ++ rs) size
unfolding Chain
Placed-Chain rs size Placed.done c = c
Placed-Chain rs size (Placed.left_out sec other placed) c = Placed-Chain rs size placed c
Placed-Chain rs size (Placed.put sec p here is placed) c =
    (is.behind, Placed-Chain rs size placed c)

-- In the plan of an object that fits in 2 ^ 32 bytes, no two of the code sections, unwind sections
-- and trampolines share a byte, and all of them lie in the image.
pub plan_image-Apart :
    (obj : ObjectFile) {plan : ImageLayout}
    → Fits obj
    → plan_image obj ≡ ok plan
    → Apart (regions plan) plan.image_size
plan_image-Apart obj {plan} fits e =
    let laid = plan_image-IsLaid obj fits e in
    let slots = Slotted-Chain plan.trampolines laid.unwind_end plan.image_size laid.trampolines in
    let unwind =
      Placed-Chain (map slot_region plan.trampolines) plan.image_size laid.unwind slots in
    Chain-Apart (regions plan) 0 plan.image_size (Placed-Chain _ plan.image_size laid.code unwind)

-- No symbol has two trampolines, and those that have one are those that a relocation asks for.
abbrev pub HasSlots : ObjectFile → ImageLayout → Type 0
HasSlots obj plan =
    Distinct (map (λ (t : TrampolineSlot). t.symbol_index) plan.trampolines)
    × ((index : ℕ)
        → HasSlot index plan.trampolines ↔ SomeAsks obj.symbols plan.code index obj.relocations)

laid_out-slots :
    (obj : ObjectFile) (code : List SectionPlacement) (code_size : ℕ)
    → HasSlots obj (laid_out obj code code_size)
unfolding laid_out
laid_out-slots obj code code_size =
    let start : Slotting = record {
      slotted = [];
      image_size = (place_unwind code_size obj.sections).0;
      trampolines = [];
    } in
    let (same, distinct) = slots_from-Distinct obj.symbols code obj.relocations start refl tt in
    (
      subst Distinct (sym same) distinct,
      λ index. asked index (laid_out obj code code_size).trampolines (
          subst
            (λ xs. any (λ i. i == index) xs ≡ any (wants obj.symbols code index) obj.relocations)
            (sym same) (slots_from-slotted obj.symbols code obj.relocations start index)),
    )
  where
    asked :
        (index : ℕ) (ts : List TrampolineSlot)
        → any (λ i. i == index) (map (λ (t : TrampolineSlot). t.symbol_index) ts)
          ≡ any (wants obj.symbols code index) obj.relocations
        → HasSlot index ts ↔ SomeAsks obj.symbols code index obj.relocations
    asked index ts e =
        let (to, from) = SomeAsks-iff obj.symbols code index obj.relocations in
        let (to', from') = HasSlot-iff index ts in
        (λ h. to (sym e ∙ from' h), λ h. to' (e ∙ from h))

-- No symbol has two trampolines in a plan, and an index has one exactly when a relocation of kind
-- REL32, whose target section is among the code placed in the image, names the symbol of that index
-- and this is an undefined external: not an auxiliary record, of section number 0, of storage class
-- 2, and of value 0, since a greater value makes it a common symbol.
pub plan_image-slots :
    (obj : ObjectFile) {plan : ImageLayout} → plan_image obj ≡ ok plan → HasSlots obj plan
plan_image-slots obj e =
    let (placed, first, same) = plan_image-parts obj e in
    subst (HasSlots obj) same (laid_out-slots obj placed.1 placed.0)
