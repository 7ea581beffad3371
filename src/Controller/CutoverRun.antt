-- ===== src/Controller/CutoverRun.antt =====
-- A cutover from its authorization to the end of the migration, command by command.
pub mod Source
pub mod FinalSync
pub mod Steps
pub mod Activation
pub mod Completion
pub mod Reach
use hv2pve.Prelude.{
  String, ◌≡◌, refl, sym, ap, ◌∙◌, inl, inr, true, false, some, List, [], ◌∷◌, arith, eq_iff,
  str_eq, Bool-cases,
}
use hv2pve.Prelude.Int.{ℤ}
use hv2pve.Json.{Value, str, int, Fields, find, put, get, truthy, value_eq}
use hv2pve.Json.Laws.{find-put}
use hv2pve.Exec.{ok}
use hv2pve.State.Record.{
  default_sync, default_destination, default_validation, MigrationState, Session,
}
use hv2pve.State.Phase.{Phase}
use hv2pve.State.Transition.Laws.{PhaseSet}
use hv2pve.State.Storage.Laws.{stamped}
use hv2pve.State.Payload.Defaults.{find-set_defaults, truthy-set_defaults, get-set_defaults}
use hv2pve.State.Payload.Laws.{filled, false_validation, in_destination, in_cutover}
use hv2pve.Safety.{require_isolated_test, require_cutover_ready}
use hv2pve.Controller.Work.Saves.{noted}
-- These keys of a section count as true.
use mathlib.Core.Path.{subst}

abbrev pub AllTruthy : List String → Fields → Type 0
AllTruthy [] d = Unit
AllTruthy (k ∷ ks) d = (truthy (get k d) ≡ true) × AllTruthy ks d

pub AllTruthy-put :
    (k : String) (v : Value) (ks : List String) (d : Fields)
    → truthy v ≡ true
    → AllTruthy ks d
    → AllTruthy (k ∷ ks) (put k v d)
AllTruthy-put k v ks d t h = (ground (arith, find-put k k v d, eq_iff k k, t), kept ks h)
  where
    kept : (ks : List String) → AllTruthy ks d → AllTruthy ks (put k v d)
    kept [] h = tt
    kept (j ∷ js) h = (
      elim (Bool-cases (str_eq k j)) [
        | inl e ↦ rw (find-put j k v d, e) t
        | inr e ↦ rw (find-put j k v d, e) (h.0)
      ],
      kept js h.1,
    )

-- A phase of the cutover, with what is recorded by then.
pub record Course (confirm : String) (vmid : ℤ) (phase : Phase) (keys : List String)
    (st : MigrationState) : Type 0 where
  pub at_phase : st.phase ≡ phase
  pub source_vm : get "vm_name" st.source ≡ str confirm
  pub placed_at : find "proxmox_vmid" st.destination ≡ some (int vmid)
  pub production : truthy (get "production_vnet" st.destination) ≡ true
  pub test : truthy (get "test_vnet" st.destination) ≡ true
  pub apart :
      value_eq (get "production_vnet" st.destination) (get "test_vnet" st.destination) ≡ false
  pub done : AllTruthy keys st.cutover

-- What the gate of `authorize-cutover` asks for.
pub record Cleared (st : MigrationState) : Type 0 where
  pub booted : truthy (get "tested" st.destination) ≡ true
  pub verified : truthy (get "isolated_boot_verified" st.validation) ≡ true
  pub synced : truthy (get "last_sync_verified" st.validation) ≡ true
  pub reference_point : truthy (get "authoritative_reference_point" st.sync) ≡ true
  pub off : truthy (get "powered_on" st.destination) ≡ false

pub Cleared-gate : (st : MigrationState) → Cleared st → require_cutover_ready st ≡ ok tt
unfolding require_cutover_ready require_isolated_test
Cleared-gate st c = rw (c.booted, c.verified, c.synced, c.reference_point, c.off) refl

pub Cleared-filled : (st : MigrationState) → Cleared st → Cleared (filled st)
Cleared-filled st c = record {
  booted = in_destination st "tested" ∙ c.booted;
  verified =
      truthy-set_defaults "isolated_boot_verified" default_validation st.validation false_validation
      ∙ c.verified;
  synced =
      truthy-set_defaults "last_sync_verified" default_validation st.validation false_validation
      ∙ c.synced;
  reference_point =
      rw (get-set_defaults "authoritative_reference_point" default_sync st.sync c.reference_point)
        c.reference_point;
  off = in_destination st "powered_on" ∙ c.off;
}

filled_keys :
    (keys : List String) (st : MigrationState)
    → AllTruthy keys st.cutover
    → AllTruthy keys (filled st).cutover
filled_keys [] st h = tt
filled_keys (k ∷ ks) st h = (in_cutover st k ∙ h.0, filled_keys ks st h.1)

module _ {confirm : String} {vmid : ℤ} where
  pub Course-filled :
      (phase : Phase) (keys : List String) (st : MigrationState)
      → Course confirm vmid phase keys st
      → Course confirm vmid phase keys (filled st)
  Course-filled phase keys st h = record {
    at_phase = h.at_phase;
    source_vm = h.source_vm;
    placed_at =
        find-set_defaults "proxmox_vmid" (int vmid) default_destination st.destination h.placed_at;
    production = in_destination st "production_vnet" ∙ h.production;
    test = in_destination st "test_vnet" ∙ h.test;
    apart =
        rw
          (
            get-set_defaults "production_vnet" default_destination st.destination h.production,
            get-set_defaults "test_vnet" default_destination st.destination h.test,
          )
          h.apart;
    done = filled_keys keys st h.done;
  }

  pub Course-stamped :
      (phase : Phase) (keys : List String) (at : String) (st : MigrationState)
      → Course confirm vmid phase keys st
      → Course confirm vmid phase keys (stamped at st)
  Course-stamped phase keys at st h = record {
    at_phase = h.at_phase;
    source_vm = h.source_vm;
    placed_at = h.placed_at;
    production = h.production;
    test = h.test;
    apart = h.apart;
    done = h.done;
  }

  pub Course-noted :
      (phase : Phase) (keys : List String) (event : String) (details : Fields) (s : Session)
      → Course confirm vmid phase keys s.state
      → Course confirm vmid phase keys (noted event details s).state
  Course-noted phase keys event details s h = record {
    at_phase = h.at_phase;
    source_vm = h.source_vm;
    placed_at = h.placed_at;
    production = h.production;
    test = h.test;
    apart = h.apart;
    done = h.done;
  }

  -- Behind a change of phase.
  pub Course-entered :
      (old phase : Phase) (keys : List String) (reason : Value) (s t : Session)
      → PhaseSet phase reason false s (ok tt, t)
      → Course confirm vmid old keys s.state
      → Course confirm vmid phase keys t.state
  Course-entered old phase keys reason s t p h = record {
    at_phase = ap (λ st. st.phase) p.0;
    source_vm = ap (λ st. get "vm_name" st.source) p.0 ∙ h.source_vm;
    placed_at = ap (λ st. find "proxmox_vmid" st.destination) p.0 ∙ h.placed_at;
    production = ap (λ st. truthy (get "production_vnet" st.destination)) p.0 ∙ h.production;
    test = ap (λ st. truthy (get "test_vnet" st.destination)) p.0 ∙ h.test;
    apart =
        ap (λ st. value_eq (get "production_vnet" st.destination) (get "test_vnet" st.destination))
          p.0
        ∙ h.apart;
    done = subst (λ c. AllTruthy keys c) (sym (ap (λ st. st.cutover) p.0)) h.done;
  }
