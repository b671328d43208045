-- ===== src/Wasm/Registration/Discovered.antt =====
-- A session starts from what read_group_records returns.
use nekomata.Base.{
  ◌≡◌, refl, subst, true, false, not, ◌&&◌, List, [], ◌∷◌, map, arith, All, Bool-cases, inl, inr,
  ok, ok-injective, bind-eq-ok, guard, guard-eq-ok,
}
use nekomata.Text.{Bytes, equal}
use nekomata.Protocol.Scanner.{is_empty}
use nekomata.Runtime.Stream.{less}
use nekomata.Wasm.Registration.{
  GroupRecord, PltSlot, GroupRegistration, valid_text, read_entries, no_record_entries, read_record,
  read_records, insert_registration, sort_registrations, check_neighbours, check_unique,
  read_group_records,
}
use nekomata.Wasm.Registration.Order.{
  IsSorted, sort-IsSorted, IsAscending, Differ, Differ-IsAscending,
}
use nekomata.Wasm.Session.{
  ManagedSession, new_group, nonempty_id, check_later_ids, check_ids, new_groups, new_session,
}

-- What the session needs of a registration.
abbrev pub IsUsable : GroupRegistration → Type 0
IsUsable r =
    (is_empty r.group_id ≡ false)
    × (is_empty r.manifest_url ≡ false)
    × (is_empty r.expected_contract.abi_id ≡ false)

valid_text-filled : (value : Bytes) → valid_text value ≡ true → is_empty value ≡ false
unfolding valid_text
valid_text-filled value valid = ground arith

read_record-IsUsable : (r : GroupRecord) {x : GroupRegistration} → read_record r ≡ ok x → IsUsable x
unfolding read_record
read_record-IsUsable r e =
    let valid =
      valid_text r.group_id
      && (valid_text r.manifest_url
          && (valid_text r.abi_id && not (no_record_entries r.entries))) in
    let (u, test, e') = bind-eq-ok (guard valid _) _ e in
    let (u', entries, e'') = bind-eq-ok (read_entries [] r.entries) _ e' in
    let test' = guard-eq-ok valid _ test in
    subst IsUsable (ok-injective e'') (
      valid_text-filled r.group_id (ground (arith, test')),
      valid_text-filled r.manifest_url (ground (arith, test')),
      valid_text-filled r.abi_id (ground (arith, test')),
    )

read_records-AreUsable :
    (rs : List GroupRecord) {xs : List GroupRegistration}
    → read_records rs ≡ ok xs
    → All IsUsable xs
unfolding read_records
read_records-AreUsable [] e = subst (All IsUsable) (ok-injective e) tt
read_records-AreUsable (r ∷ rs) e =
    let (x, first, e') = bind-eq-ok (read_record r) _ e in
    let (xs, rest, e'') = bind-eq-ok (read_records rs) _ e' in
    subst (All IsUsable) (ok-injective e'')
      (read_record-IsUsable r first, read_records-AreUsable rs rest)

insert-AreUsable :
    (r : GroupRegistration) (rs : List GroupRegistration)
    → IsUsable r
    → All IsUsable rs
    → All IsUsable (insert_registration r rs)
unfolding insert_registration
insert-AreUsable r [] u us = (u, tt)
insert-AreUsable r (x ∷ xs) u us = elim (Bool-cases (less x.group_id r.group_id)) [
  | inl below ↦ rw below (us.0, insert-AreUsable r xs u us.1)
  | inr above ↦ rw above (u, us)
]

sort-AreUsable :
    (rs : List GroupRegistration) → All IsUsable rs → All IsUsable (sort_registrations rs)
unfolding sort_registrations
sort-AreUsable [] us = tt
sort-AreUsable (r ∷ rs) us =
    insert-AreUsable r (sort_registrations rs) us.0 (sort-AreUsable rs us.1)

insert-sorted :
    (r : GroupRegistration) (rs : List GroupRegistration)
    → IsSorted (r ∷ rs)
    → insert_registration r rs ≡ r ∷ rs
unfolding insert_registration
insert-sorted r [] sorted = refl
insert-sorted r (x ∷ xs) sorted = rw (sorted.0.0) refl

-- The session sorts what is sorted already.
sort-sorted : (rs : List GroupRegistration) → IsSorted rs → sort_registrations rs ≡ rs
unfolding sort_registrations
sort-sorted [] sorted = refl
sort-sorted (r ∷ rs) sorted = rw (sort-sorted rs sorted.1) (insert-sorted r rs sorted)

check_later_ids-ok :
    (previous : Bytes) (rs : List GroupRegistration)
    → All IsUsable rs
    → check_neighbours previous rs ≡ ok tt
    → check_later_ids previous rs ≡ ok tt
unfolding check_neighbours check_later_ids nonempty_id
check_later_ids-ok previous [] us e = refl
check_later_ids-ok previous (r ∷ rs) (u, us) e =
    let (v, test, e') = bind-eq-ok (guard (not (equal previous r.group_id)) _) _ e in
    let differ = guard-eq-ok (not (equal previous r.group_id)) _ test in
    rw (u.0, differ) (check_later_ids-ok r.group_id rs us e')

check_ids-ok :
    (rs : List GroupRegistration) → All IsUsable rs → check_unique rs ≡ ok tt → check_ids rs ≡ ok tt
unfolding check_unique check_ids nonempty_id
check_ids-ok [] us e = refl
check_ids-ok (r ∷ rs) (u, us) e = rw (u.0) (check_later_ids-ok r.group_id rs us e)

new_groups-ok :
    (rs : List GroupRegistration) → All IsUsable rs → new_groups rs ≡ ok (map new_group rs)
unfolding new_groups
new_groups-ok [] us = refl
new_groups-ok (r ∷ rs) (u, us) = rw (u.1, new_groups-ok rs us) refl

check_neighbours-Differ :
    (previous : Bytes) (rs : List GroupRegistration)
    → check_neighbours previous rs ≡ ok tt
    → Differ previous rs
unfolding check_neighbours
check_neighbours-Differ previous [] e = tt
check_neighbours-Differ previous (r ∷ rs) e =
    let (u, test, rest) = bind-eq-ok (guard (not (equal previous r.group_id)) _) _ e in
    let differ = guard-eq-ok (not (equal previous r.group_id)) _ test in
    (ground (arith, differ), check_neighbours-Differ r.group_id rs rest)

unique-IsAscending :
    (rs : List GroupRegistration) → IsSorted rs → check_unique rs ≡ ok tt → IsAscending rs
unfolding check_unique
unique-IsAscending [] sorted e = tt
unique-IsAscending (r ∷ rs) sorted e =
    Differ-IsAscending r rs sorted (check_neighbours-Differ r.group_id rs e)

-- The groups that are read are usable, and have ids of their own.
pub read_group_records-lem :
    (records : List GroupRecord) {groups : List GroupRegistration}
    → read_group_records records ≡ ok groups
    → All IsUsable groups × IsAscending groups
unfolding read_group_records
read_group_records-lem records {groups} e =
    let (xs, read, e') = bind-eq-ok (read_records records) _ e in
    let (u, unique, e'') = bind-eq-ok (check_unique (sort_registrations xs)) _ e' in
    subst (λ rs. All IsUsable rs × IsAscending rs) (ok-injective e'')
      (
        sort-AreUsable xs (read_records-AreUsable records read),
        unique-IsAscending (sort_registrations xs) (sort-IsSorted xs) unique,
      )

-- A session starts from the groups that the registered records give, if they give any: its
-- constructor throws nothing, and it has one disabled group for each, in their order.
pub read_group_records-starts :
    (slots : List PltSlot) (records : List GroupRecord) {groups : List GroupRegistration}
    → read_group_records records ≡ ok groups
    → (s : ManagedSession) × (new_session slots groups ≡ ok s)
      × (s.groups ≡ map new_group groups)
      × (s.slots ≡ slots)
unfolding read_group_records new_session
read_group_records-starts slots records {groups} e =
    let (xs, read, e') = bind-eq-ok (read_records records) _ e in
    let (u, unique, e'') = bind-eq-ok (check_unique (sort_registrations xs)) _ e' in
    let same = ok-injective e'' in
    let usable =
      subst (All IsUsable) same (sort-AreUsable xs (read_records-AreUsable records read)) in
    let sorted = sort-sorted groups (subst IsSorted same (sort-IsSorted xs)) in
    let checked = check_ids-ok groups usable (subst (λ rs. check_unique rs ≡ ok tt) same unique) in
    let built = new_groups-ok groups usable in
    (
      record {
        groups = map new_group groups;
        applied = 0;
        rejected = 0;
        last_result = [];
        slots = slots;
        next_observation = 0;
        next_candidate = 0;
      },
      rw (sorted, checked, built) refl,
      refl,
      refl,
    )
