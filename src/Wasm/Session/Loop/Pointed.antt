-- ===== src/Wasm/Session/Loop/Pointed.antt =====
-- The PLT slots in every state that the event loop reaches.
use nekomata.Base.{◌≡◌, refl, sym, ◌∙◌, ap, subst, List, [], ◌∷◌, map, Option, All}
use nekomata.Text.{Bytes}
use nekomata.Wasm.Registration.{PltSlot}
use nekomata.Wasm.Session.{Group, ManagedSession}
use nekomata.Wasm.Session.Update.{GroupTransaction, prepare_transaction, commit_groups, update}
use nekomata.Wasm.Session.Update.Settled.{Pairs}
use nekomata.Wasm.Session.Update.Slots.{ArePointed}
use nekomata.Wasm.Session.Loop.Slots.{
  View, view, AreApart, ids, pair_ids, AllPointed, commit_groups-AllPointed, commit_groups-ids,
}
use nekomata.Wasm.Session.Loop.Views.{StepCase, updated, same, Step-cases}
use nekomata.Wasm.Session.Loop.{Step, Reach, here, next}

abbrev pub first_ids : List View → List Bytes
first_ids vs = map (λ (v : View). v.0) vs

-- The groups have different ids, and each slot of a group is at its entry in the active module.
abbrev pub Pointed : List PltSlot → List View → Type 0
Pointed slots vs = AreApart (first_ids vs) × All (λ v. ArePointed v.0 v.1 slots) vs

abbrev prepared : List Group → Pairs
prepared gs = map (λ g. (g, prepare_transaction g)) gs

prepared-ids : (gs : List Group) → pair_ids (prepared gs) ≡ first_ids (map view gs)
prepared-ids [] = refl
prepared-ids (g ∷ gs) = ap (◌∷◌ g.id) (prepared-ids gs)

view-ids : (gs : List Group) → ids gs ≡ first_ids (map view gs)
view-ids [] = refl
view-ids (g ∷ gs) = ap (◌∷◌ g.id) (view-ids gs)

to_pairs :
    (slots : List PltSlot) (gs : List Group)
    → All (λ (v : View). ArePointed v.0 v.1 slots) (map view gs)
    → All
        (λ (x : Group × Option GroupTransaction). ArePointed x.0.id x.0.active slots)
        (prepared gs)
to_pairs slots [] held = tt
to_pairs slots (g ∷ gs) held = (held.0, to_pairs slots gs held.1)

from_groups :
    (slots : List PltSlot) (gs : List Group)
    → AllPointed gs slots
    → All (λ (v : View). ArePointed v.0 v.1 slots) (map view gs)
from_groups slots [] held = tt
from_groups slots (g ∷ gs) held = (held.0, from_groups slots gs held.1)

pub to_groups :
    (slots : List PltSlot) (gs : List Group)
    → All (λ (v : View). ArePointed v.0 v.1 slots) (map view gs)
    → AllPointed gs slots
to_groups slots [] held = tt
to_groups slots (g ∷ gs) held = (held.0, to_groups slots gs held.1)

abbrev pub IsPointed : ManagedSession → Type 0
IsPointed s = Pointed s.slots (map view s.groups)

update-IsPointed : (s : ManagedSession) → IsPointed s → IsPointed (update s).0
unfolding update
update-IsPointed s held =
    let same_ids =
      sym (view-ids (commit_groups s (prepared s.groups)).1)
      ∙ commit_groups-ids (prepared s.groups) s
      ∙ prepared-ids s.groups in
    (
      subst AreApart (sym same_ids) held.0,
      from_groups _ (commit_groups s (prepared s.groups)).1 (
          commit_groups-AllPointed (prepared s.groups) s
            (subst AreApart (sym (prepared-ids s.groups)) held.0)
            (to_pairs s.slots s.groups held.1)),
    )

Step-IsPointed : {s t : ManagedSession} → Step s t → IsPointed s → IsPointed t
Step-IsPointed {s} {t} step held = go (Step-cases step)
  where
    go : StepCase s t → IsPointed t
    go (updated e) = subst IsPointed (sym e) (update-IsPointed s held)
    go (same (views, slots)) =
        subst (Pointed t.slots) (sym views)
          (subst (λ x. Pointed x (map view s.groups)) (sym slots) held)

pub Reach-IsPointed : {s t : ManagedSession} → IsPointed s → Reach s t → IsPointed t
Reach-IsPointed held here = held
Reach-IsPointed held (next before step) = Step-IsPointed step (Reach-IsPointed held before)
