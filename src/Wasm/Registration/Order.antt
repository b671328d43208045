-- ===== src/Wasm/Registration/Order.antt =====
-- Group ids in ascending order: the order of strings, and what sorting and the checks behind it leave.
use nekomata.Base.{◌≡◌, refl, true, false, List, [], ◌∷◌, arith, All, Bool-cases, inl, inr}
use nekomata.Text.{Bytes, equal}
use nekomata.Runtime.Stream.{less}
use nekomata.Wasm.Registration.{GroupRegistration, insert_registration, sort_registrations}

-- Between two strings in order, a third is not before the second unless the first is before it.
pub less_split : (a b c : Bytes) → less a c ≡ true → less b c ≡ false → less a b ≡ true
unfolding less
less_split a b [] h k = cc
less_split a [] (z ∷ zs) h k = cc
less_split [] (y ∷ ys) (z ∷ zs) h k = refl
less_split (x ∷ xs) (y ∷ ys) (z ∷ zs) h k = ground (arith, less_split xs ys zs)

pub less_asym : (a b : Bytes) → less a b ≡ true → less b a ≡ false
unfolding less
less_asym a [] h = cc
less_asym [] (y ∷ ys) h = refl
less_asym (x ∷ xs) (y ∷ ys) h = ground (arith, less_asym xs ys)

pub less_total : (a b : Bytes) → less a b ≡ false → equal b a ≡ false → less b a ≡ true
unfolding less equal
less_total [] [] h k = cc
less_total [] (y ∷ ys) h k = cc
less_total (x ∷ xs) [] h k = refl
less_total (x ∷ xs) (y ∷ ys) h k = ground (arith, less_total xs ys)

pub less_apart : (a b : Bytes) → less a b ≡ true → equal a b ≡ false
unfolding less equal
less_apart a [] h = cc
less_apart [] (y ∷ ys) h = refl
less_apart (x ∷ xs) (y ∷ ys) h = ground (arith, less_apart xs ys)

pub less_apart_sym : (a b : Bytes) → less a b ≡ true → equal b a ≡ false
unfolding less equal
less_apart_sym a [] h = cc
less_apart_sym [] (y ∷ ys) h = refl
less_apart_sym (x ∷ xs) (y ∷ ys) h = ground (arith, less_apart_sym xs ys)

-- Every id is before those behind it.
abbrev pub Above : Bytes → List GroupRegistration → Type 0
Above id = All λ r. less id r.group_id ≡ true

abbrev pub IsAscending : List GroupRegistration → Type 0
IsAscending [] = Unit {0}
IsAscending (r ∷ rs) = Above r.group_id rs × IsAscending rs

-- No id is before one that stands ahead of it.
abbrev pub NotBelow : Bytes → List GroupRegistration → Type 0
NotBelow id = All λ r. less r.group_id id ≡ false

abbrev pub IsSorted : List GroupRegistration → Type 0
IsSorted [] = Unit {0}
IsSorted (r ∷ rs) = NotBelow r.group_id rs × IsSorted rs

insert-NotBelow :
    (id : Bytes) (r : GroupRegistration) (rs : List GroupRegistration)
    → less r.group_id id ≡ false
    → NotBelow id rs
    → NotBelow id (insert_registration r rs)
unfolding insert_registration
insert-NotBelow id r [] h hs = (h, tt)
insert-NotBelow id r (x ∷ xs) h hs = elim (Bool-cases (less x.group_id r.group_id)) [
  | inl below ↦ rw below (hs.0, insert-NotBelow id r xs h hs.1)
  | inr above ↦ rw above (h, hs)
]

-- What is not before `x` is not before an `r` that `x` is not before.
widen :
    (id other : Bytes) (rs : List GroupRegistration)
    → less other id ≡ false
    → NotBelow other rs
    → NotBelow id rs
widen id other [] h hs = tt
widen id other (x ∷ xs) h hs = (
  elim (Bool-cases (less x.group_id id)) [
    | inl below ↦ cc (less_split x.group_id other id below h, hs.0)
    | inr above ↦ above
  ],
  widen id other xs h hs.1,
)

insert-IsSorted :
    (r : GroupRegistration) (rs : List GroupRegistration)
    → IsSorted rs
    → IsSorted (insert_registration r rs)
unfolding insert_registration
insert-IsSorted r [] h = (tt, tt)
insert-IsSorted r (x ∷ xs) h = elim (Bool-cases (less x.group_id r.group_id)) [
  | inl below ↦ rw below (
    insert-NotBelow x.group_id r xs (less_asym x.group_id r.group_id below) h.0,
    insert-IsSorted r xs h.1,
  )
  | inr above ↦ rw above ((above, widen r.group_id x.group_id xs above h.0), h)
]

pub sort-IsSorted : (rs : List GroupRegistration) → IsSorted (sort_registrations rs)
unfolding sort_registrations
sort-IsSorted [] = tt
sort-IsSorted (r ∷ rs) = insert-IsSorted r (sort_registrations rs) (sort-IsSorted rs)

-- Neighbours that differ.
abbrev pub Differ : Bytes → List GroupRegistration → Type 0
Differ previous [] = Unit {0}
Differ previous (r ∷ rs) = (equal previous r.group_id ≡ false) × Differ r.group_id rs

raise :
    (id other : Bytes) (rs : List GroupRegistration)
    → less id other ≡ true
    → NotBelow other rs
    → Above id rs
raise id other [] h hs = tt
raise id other (x ∷ xs) h hs = (less_split id x.group_id other h hs.0, raise id other xs h hs.1)

pub Differ-IsAscending :
    (r : GroupRegistration) (rs : List GroupRegistration)
    → IsSorted (r ∷ rs)
    → Differ r.group_id rs
    → IsAscending (r ∷ rs)
Differ-IsAscending r [] sorted differ = (tt, tt)
Differ-IsAscending r (x ∷ xs) sorted differ =
    let first = less_total x.group_id r.group_id sorted.0.0 differ.0 in
    (
      (first, raise r.group_id x.group_id xs first sorted.1.0),
      Differ-IsAscending x xs sorted.1 differ.1,
    )
