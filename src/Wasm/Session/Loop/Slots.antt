-- ===== src/Wasm/Session/Loop/Slots.antt =====
-- The second pass of an update over groups of different ids, and their PLT slots.
use nekomata.Base.{
  ◌≡◌, refl, sym, ap, ap₂, subst, false, List, [], ◌∷◌, map, Option, none, some, All,
}
use nekomata.Text.{Bytes, equal}
use nekomata.Wasm.Candidate.{PreparedModule}
use nekomata.Wasm.Registration.{PltSlot}
use nekomata.Wasm.Session.{Group, ManagedSession}
use nekomata.Wasm.Session.Update.{
  GroupTransaction, commit_transaction, commit_pending, commit_groups, note,
}
use nekomata.Wasm.Session.Update.Settled.{Pairs}
use nekomata.Wasm.Session.Update.Slots.{ArePointed, commit_pending-Own}

-- What the slots depend on: the groups' ids and active modules.
abbrev pub View : Type 0
View = Bytes × Option PreparedModule

abbrev pub view : Group → View
view g = (g.id, g.active)

abbrev pub AreApart : List Bytes → Type 0
AreApart [] = Unit {0}
AreApart (id ∷ ids) =
    All (λ other. (equal id other ≡ false) × (equal other id ≡ false)) ids × AreApart ids

abbrev pub ids : List Group → List Bytes
ids gs = map (λ (g : Group). g.id) gs

abbrev pub AllPointed : List Group → List PltSlot → Type 0
AllPointed gs slots = All (λ (g : Group). ArePointed g.id g.active slots) gs

abbrev pub pair_ids : Pairs → List Bytes
pair_ids gs = map (λ (x : Group × Option GroupTransaction). x.0.id) gs

-- From the ids to those that have them.
spread :
    (P Q : Bytes → Type 0) (gs : Pairs)
    → ((id : Bytes) → P id → Q id)
    → All P (pair_ids gs)
    → All (λ x. Q x.0.id) gs
spread P Q [] narrow h = tt
spread P Q (x ∷ gs) narrow h = (narrow x.0.id h.0, spread P Q gs narrow h.1)

others :
    (id : Bytes) (active : Option PreparedModule) (gs : Pairs) (s : ManagedSession)
    → All (λ x. equal x.0.id id ≡ false) gs
    → ArePointed id active s.slots
    → ArePointed id active (commit_groups s gs).0.slots
unfolding commit_groups commit_transaction note
others id active [] s apart held = held
others id active ((g, none) ∷ gs) s apart held = others id active gs s apart.1 held
others id active ((g, some t) ∷ gs) s apart held =
    others id active gs _ apart.1
      ((commit_pending-Own t s.slots g g.poller.pending).2 id active apart.0 held)

-- The groups behind one whose transaction is done still have their slots.
later_ones :
    (g : Group) (slots slots' : List PltSlot) (gs : Pairs)
    → ((id : Bytes) (active : Option PreparedModule)
        → equal g.id id ≡ false
        → ArePointed id active slots
        → ArePointed id active slots')
    → All (λ x. equal g.id x.0.id ≡ false) gs
    → All (λ x. ArePointed x.0.id x.0.active slots) gs
    → All (λ x. ArePointed x.0.id x.0.active slots') gs
later_ones g slots slots' [] keep apart held = tt
later_ones g slots slots' (x ∷ gs) keep apart held =
    (keep x.0.id x.0.active apart.0 held.0, later_ones g slots slots' gs keep apart.1 held.1)

pub commit_groups-AllPointed :
    (gs : Pairs) (s : ManagedSession)
    → AreApart (pair_ids gs)
    → All (λ x. ArePointed x.0.id x.0.active s.slots) gs
    → AllPointed (commit_groups s gs).1 (commit_groups s gs).0.slots
unfolding commit_groups commit_transaction note
commit_groups-AllPointed [] s apart held = tt
commit_groups-AllPointed ((g, none) ∷ gs) s apart held = (
  others g.id g.active gs s (spread _ (λ id. equal id g.id ≡ false) gs (λ id x. x.1) apart.0)
      held.0,
  commit_groups-AllPointed gs s apart.1 held.1,
)
commit_groups-AllPointed ((g, some t) ∷ gs) s apart held =
    let (same, own, free) = commit_pending-Own t s.slots g g.poller.pending in
    let c = commit_pending t s.slots g g.poller.pending in
    (
      others c.group.id c.group.active gs _
          (subst (λ id. All (λ x. equal x.0.id id ≡ false) gs) (sym same)
            (spread _ (λ id. equal id g.id ≡ false) gs (λ id x. x.1) apart.0))
          (own held.0),
      commit_groups-AllPointed gs _ apart.1 (
          later_ones g s.slots c.slots gs free
            (spread _ (λ id. equal g.id id ≡ false) gs (λ id x. x.0) apart.0) held.1),
    )

pub commit_groups-ids : (gs : Pairs) (s : ManagedSession) → ids (commit_groups s gs).1 ≡ pair_ids gs
unfolding commit_groups commit_transaction
commit_groups-ids [] s = refl
commit_groups-ids ((g, none) ∷ gs) s = ap (◌∷◌ g.id) (commit_groups-ids gs s)
commit_groups-ids ((g, some t) ∷ gs) s =
    ap₂ ◌∷◌ (commit_pending-Own t s.slots g g.poller.pending).0 (commit_groups-ids gs _)
