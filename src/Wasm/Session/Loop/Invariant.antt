-- ===== src/Wasm/Session/Loop/Invariant.antt =====
-- What holds of every group, in whatever order the events come.
use nekomata.Base.{
  ℕ, ◌≡◌, refl, sym, subst, true, false, ◌&&◌, ◌==◌, List, [], ◌∷◌, Option, none, some, All,
  Bool-cases, inl, inr,
}
use nekomata.Text.{Bytes, equal}
use nekomata.Wasm.Module.{ModuleContract, ModuleLoadResult}
use nekomata.Wasm.Candidate.{PreparedModule, is_cancellable, is_ready, activate, Activation}
use nekomata.Wasm.Candidate.Ready.{Becomes, stays, replaced, activate-Becomes}
use nekomata.Wasm.Poller.{OfferPoller, Pending, ManifestText, poll}
use nekomata.Wasm.Poller.Host.{IsHeld, IsPending, IsActive, delivered-Keeps, complete-IsHeld}
use nekomata.Wasm.Registration.{PltSlot}
use nekomata.Wasm.Session.{Group, ManagedSession}
use nekomata.Wasm.Session.Update.{
  GroupTransaction, after_activation, commit_transaction, commit_pending, conclude_rejected,
  commit_groups,
}
use nekomata.Wasm.Session.Loop.{tick_group, fetched_group, loaded_group, completed, observes}

-- `Registered` is whatever holds of the groups' ids and host contracts at the start.
module _ (Registered : Bytes → ModuleContract → Type 0) where
  -- The pending candidate is held to the host's contract, and so is the active module.
  pub record IsServed (id : Bytes) (p : OfferPoller) (active : Option PreparedModule) : Type 0 where
    pub pending : IsPending p.expected_contract p.pending
    pub active_module : IsActive p.expected_contract active
    pub registered : Registered id p.expected_contract

  abbrev pub IsGroup : Group → Type 0
  IsGroup g = IsServed g.id g.poller g.active

  abbrev pub IsSession : ManagedSession → Type 0
  IsSession s = All IsGroup s.groups

  poll-IsServed :
      (id : Bytes) (p : OfferPoller) (active : Option PreparedModule)
      → IsServed id p active
      → IsServed id (poll p).0 active
  unfolding poll
  poll-IsServed id p active served = elim (Bool-cases p.fetching) [
    | inl busy ↦
        let same : poll p ≡ (p, false) = rw (busy, poll) refl in
        subst (λ r. IsServed id r.0 active) (sym same) served
    | inr free ↦
        rw (free, poll)
          (record {
            pending = served.pending;
            active_module = served.active_module;
            registered = served.registered;
          })
  ]

  pub tick_group-IsGroup :
      (observation : ℕ) (g : Group) → IsGroup g → IsGroup (tick_group observation g)
  unfolding tick_group
  tick_group-IsGroup observation g served = elim (Bool-cases (observes g.observed observation)) [
    | inr gone ↦ rw (gone, tick_group) served
    | inl current ↦ rw (current, tick_group) (poll-IsServed g.id g.poller g.active served)
  ]

  pub fetched_group-IsGroup :
      (id : Bytes) (m : ManifestText) (identity : ℕ) (g : Group)
      → IsGroup g
      → IsGroup (fetched_group id m identity g)
  unfolding fetched_group
  fetched_group-IsGroup id m identity g served =
      elim (Bool-cases (equal g.id id && g.poller.fetching)) [
        | inr other ↦ rw (other, fetched_group) served
        | inl fetching ↦
            let (same, held) = delivered-Keeps identity g.poller m served.pending in
            rw (fetching, fetched_group)
              (record {
                pending = held;
                active_module =
                    subst (λ host. IsActive host g.active) (sym same) served.active_module;
                registered = subst (Registered g.id) (sym same) served.registered;
              })
      ]

  pub loaded_group-IsGroup :
      (identity : ℕ) (r : ModuleLoadResult) (g : Group)
      → IsGroup g
      → IsGroup (loaded_group identity r g)
  unfolding loaded_group
  loaded_group-IsGroup identity r g served = record {
    pending = go g.poller.pending served.pending;
    active_module = served.active_module;
    registered = served.registered;
  }
    where
      go :
          (o : Option Pending)
          → IsPending g.poller.expected_contract o
          → IsPending g.poller.expected_contract (completed identity r o)
      go none held = tt
      go (some pending) held = elim (Bool-cases (pending.identity == identity)) [
        | inl same ↦ rw same (complete-IsHeld g.poller.expected_contract r pending.candidate held)
        | inr other ↦ rw other held
      ]

  after_activation-IsGroup :
      (t : GroupTransaction) (slots : List PltSlot) (g : Group) (pending : Pending) (a : Activation)
      → Becomes g.active pending.candidate a
      → IsHeld g.poller.expected_contract pending.candidate
      → IsGroup g
      → IsGroup (after_activation t slots g pending a).group
  unfolding after_activation is_cancellable
  after_activation-IsGroup t slots g pending a (stays e) held served = rw e (record {
    pending = held;
    active_module = served.active_module;
    registered = served.registered;
  })
  after_activation-IsGroup t slots g pending a (replaced m decided fulfilled e) held served =
      let cancellable : is_cancellable pending.candidate.status ≡ true = rw decided refl in
      rw e (record {
        pending = (refl, λ h. cc);
        active_module = (pending.candidate.contract, fulfilled, held.1 cancellable);
        registered = served.registered;
      })

  commit_pending-IsGroup :
      (t : GroupTransaction) (slots : List PltSlot) (g : Group) (o : Option Pending)
      → IsPending g.poller.expected_contract o
      → IsGroup g
      → IsGroup (commit_pending t slots g o).group
  unfolding commit_pending conclude_rejected
  commit_pending-IsGroup t slots g none held served = record {
    pending = served.pending;
    active_module = served.active_module;
    registered = served.registered;
  }
  commit_pending-IsGroup t slots g (some pending) held served =
      elim (Bool-cases (is_ready pending.candidate.status)) [
        | inl decided ↦
            rw (decided, commit_pending)
              (after_activation-IsGroup t slots g pending (activate g.active pending.candidate)
                (activate-Becomes g.active pending.candidate held.0) held served)
        | inr refused ↦
            rw (refused, commit_pending)
              (record {
                pending = served.pending;
                active_module = served.active_module;
                registered = served.registered;
              })
      ]

  -- The groups that the second pass leaves.
  pub commit_groups-IsSession :
      (gs : List (Group × Option GroupTransaction)) (s : ManagedSession)
      → All (λ x. IsGroup x.0) gs
      → All IsGroup (commit_groups s gs).1
  unfolding commit_groups commit_transaction
  commit_groups-IsSession [] s served = tt
  commit_groups-IsSession ((g, none) ∷ gs) s served =
      (served.0, commit_groups-IsSession gs s served.1)
  commit_groups-IsSession ((g, some t) ∷ gs) s served = (
    commit_pending-IsGroup t s.slots g g.poller.pending served.0.pending served.0,
    commit_groups-IsSession gs _ served.1,
  )
