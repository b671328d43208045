-- ===== src/Runtime/Backend.antt =====
-- include/neko/backend/code_substituter.hpp and object_loader.hpp: what the session knows of its
-- backend. Memory is the executable bytes of the process by address;
-- the state of the backend itself stands in `Process`.
use nekomata.Base.{
  ℕ, ◌+◌, ◌-◌, ◌≡◌, refl, Bool, true, false, ◌&&◌, List, [], ◌∷◌, Option, some, arith, ltb, leb,
  if◌then◌else◌, get_or, Result, ◌⊎◌, inl, inr, Bool-cases, ap, sym, ◌∙◌,
}
use nekomata.Text.{Bytes}

abbrev pub Memory : Type 0
Memory = ℕ → ℕ

-- Whether `x` lies in the five bytes at `entry`.
abbrev pub in_entry : ℕ → ℕ → Bool
in_entry entry x = leb entry x && ltb x (entry + 5)

-- The memory with five bytes written at `entry`.
abbrev pub write_entry : Memory → ℕ → Bytes → Memory
write_entry m entry code x = if in_entry entry x then get_or code (x - entry) 0 else m x

abbrev pub read_entry : Memory → ℕ → Bytes
read_entry m entry = m entry ∷ m (entry + 1) ∷ m (entry + 2) ∷ m (entry + 3) ∷ m (entry + 4) ∷ []

-- Writing back the five bytes that were read restores them, and nothing else.
pub write-read_entry :
    (m m' : Memory) (entry x : ℕ)
    → write_entry m' entry (read_entry m entry) x ≡ (if in_entry entry x then m x else m' x)
write-read_entry m m' entry x = elim (Bool-cases (in_entry entry x)) [
  | inl inside ↦
      let cases : (x ≡ entry)
          ⊎ (x ≡ entry + 1)
          ⊎ (x ≡ entry + 2)
          ⊎ (x ≡ entry + 3)
          ⊎ (x ≡ entry + 4) =
        ground arith in
      rw inside (at_offset cases)
  | inr outside ↦ rw outside refl
]
  where
    at :
        (k : ℕ)
        → x ≡ entry + k
        → get_or (read_entry m entry) (x - entry) 0 ≡ get_or (read_entry m entry) k 0
    at k e = ap (λ i. get_or (read_entry m entry) i 0) (omega arith)

    at_offset :
        (x ≡ entry) ⊎ (x ≡ entry + 1) ⊎ (x ≡ entry + 2) ⊎ (x ≡ entry + 3) ⊎ (x ≡ entry + 4)
        → get_or (read_entry m entry) (x - entry) 0 ≡ m x
    at_offset (inl e) = at 0 (omega arith) ∙ ap m (sym e)
    at_offset (inr (inl e)) = at 1 e ∙ ap m (sym e)
    at_offset (inr (inr (inl e))) = at 2 e ∙ ap m (sym e)
    at_offset (inr (inr (inr (inl e)))) = at 3 e ∙ ap m (sym e)
    at_offset (inr (inr (inr (inr e)))) = at 4 e ∙ ap m (sym e)

pub record Replacement : Type 0 where
  pub name : Bytes
  pub old_entry : ℕ
  pub offset_in_image : ℕ

-- `loaded_image`: `allocation` names the mapping that it owns, `code` is the mapping's address.
-- What only the loader reads of an image (symbols, fixups, state definitions) is its `linkage`.
pub record Allocation : Type 0 where
  pub handle : ℕ
  pub code : ℕ

pub record LoadedImage (Linkage : Type 0) : Type 0 where
  pub allocation : Option Allocation
  pub replacements : List Replacement
  pub state_allocations : List ℕ
  pub linkage : Linkage

-- `code_substituter`. A call returns the new process and whether it succeeded; the laws are what
-- the two-phase protocol of the header promises of the five bytes at an entry.
pub record Substituter : Type 1 where
  pub Process : Type 0
  pub memory : Process → Memory
  pub jump : ℕ → ℕ → Bytes
  pub precheck_entry : Process → ℕ → ℕ → Bool
  pub snapshot_entry : Process → ℕ → Option Bytes
  pub patch_entry : Process → ℕ → ℕ → Process × Bool
  pub restore_entry : Process → ℕ → Bytes → Process × Bool
  pub snapshot_reads :
      (p : Process) (entry : ℕ) (code : Bytes)
      → snapshot_entry p entry ≡ some code
      → code ≡ read_entry (memory p) entry
  pub patch_writes :
      (p : Process) (entry target x : ℕ)
      → (patch_entry p entry target).1 ≡ true
      → memory (patch_entry p entry target).0 x ≡ write_entry (memory p) entry (jump entry target) x
  pub patch_refuses :
      (p : Process) (entry target x : ℕ)
      → (patch_entry p entry target).1 ≡ false
      → memory (patch_entry p entry target).0 x ≡ memory p x
  pub restore_writes :
      (p : Process) (entry : ℕ) (code : Bytes) (x : ℕ)
      → (restore_entry p entry code).1 ≡ true
      → memory (restore_entry p entry code).0 x ≡ write_entry (memory p) entry code x

-- `object_loader`, over the same process. `link_generation` returns the images' new linkage, in
-- order. The calls around the entry writes of a commit write no memory that entries live in.
pub record Loader (s : Substituter) : Type 1 where
  pub Linkage : Type 0
  pub load : s.Process → Bytes → Bytes → s.Process × Result Bytes (LoadedImage Linkage)
  pub link_generation :
      s.Process → List (LoadedImage Linkage) → s.Process × Result Bytes (List Linkage)
  pub prepare_generation_commit :
      s.Process → List (LoadedImage Linkage) → s.Process × Result Bytes (Unit {0})
  pub commit_generation : s.Process → List (LoadedImage Linkage) → s.Process
  pub prepare_keeps :
      (p : s.Process) (images : List (LoadedImage Linkage)) (x : ℕ)
      → s.memory (prepare_generation_commit p images).0 x ≡ s.memory p x
  pub commit_keeps :
      (p : s.Process) (images : List (LoadedImage Linkage)) (x : ℕ)
      → s.memory (commit_generation p images) x ≡ s.memory p x
