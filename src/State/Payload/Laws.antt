-- ===== src/State/Payload/Laws.antt =====
-- controller/state.py: `from_dict` of what `asdict` makes.
use hv2pve.Prelude.{◌+◌, String, ◌≡◌, sym, ap, ◌∙◌, true, arith, le→leb}
use hv2pve.Prelude.Int.{ℤ, pos, min_ℤ}
use hv2pve.Json.{Fields, find, put, get, truthy}
use hv2pve.Exec.{Result, ok, ◌>>=◌}
use hv2pve.State.Phase.{rank, phase_in, valid_phases, to_phase-phase_value}
use hv2pve.State.Record.{
  schema_version_supported, default_sync, default_destination, default_validation, default_cutover,
  MigrationState,
}
use hv2pve.State.Validate.Laws.{IsValid, IsValid-validate}
use hv2pve.State.Payload.{
  set_defaults, as_fields, as_items, normalize_section, normalize_payload, state_of_payload,
  from_dict, as_dict,
}
use hv2pve.State.Payload.Defaults.{AllFalse, truthy-set_defaults, get-set_defaults}
use hv2pve.Json.Number.{to_int}
use hv2pve.State.Phase.Order.{phase_in_valid}
use hv2pve.World.{World}

-- A state with the defaults of its sections filled in.
abbrev pub filled : MigrationState → MigrationState
filled st = record st {
  destination = set_defaults default_destination st.destination;
  sync = set_defaults default_sync st.sync;
  validation = set_defaults default_validation st.validation;
  cutover = set_defaults default_cutover st.cutover;
}

false_destination : AllFalse default_destination
unfolding truthy
false_destination = ground arith

pub false_validation : AllFalse default_validation
unfolding truthy
false_validation = ground arith

false_cutover : AllFalse default_cutover
unfolding truthy
false_cutover = ground arith

module _ (st : MigrationState) where
  pub in_destination :
      (j : String) → truthy (get j (filled st).destination) ≡ truthy (get j st.destination)
  in_destination j = truthy-set_defaults j default_destination st.destination false_destination

  pub in_cutover : (j : String) → truthy (get j (filled st).cutover) ≡ truthy (get j st.cutover)
  in_cutover j = truthy-set_defaults j default_cutover st.cutover false_cutover

  pub IsValid-filled : IsValid st → IsValid (filled st)
  IsValid-filled v = record {
    named = v.named;
    known = v.known;
    supported = v.supported;
    placed = λ a b. in_destination "proxmox_vmid" ∙ v.placed a b;
    booted = λ a b. in_destination "tested" ∙ v.booted a b;
    authorized = λ a b.
        truthy-set_defaults "authorized" default_cutover st.cutover false_cutover
        ∙ v.authorized a b;
    verified = λ t.
        truthy-set_defaults "isolated_boot_verified" default_validation st.validation
          false_validation
        ∙ v.verified (sym (in_destination "tested") ∙ t);
    isolated = λ p t.
        let p' = sym (in_destination "production_vnet") ∙ p in
        let t' = sym (in_destination "test_vnet") ∙ t in
        rw
          (
            get-set_defaults "production_vnet" default_destination st.destination p',
            get-set_defaults "test_vnet" default_destination st.destination t',
          )
          (v.isolated p' t');
  }

  normalize-as_dict :
      st.schema_version ≡ pos 2 → normalize_payload (as_dict st) ≡ ok (as_dict (filled st))
  unfolding normalize_payload as_dict find normalize_section as_fields put to_int
  normalize-as_dict h =
      let written : ℤ → Result Fields =
        λ v. ok (as_dict (record (filled st) { schema_version = v })) in
      ap (λ v. written (min_ℤ v schema_version_supported)) h ∙ ap written (sym h)

  state_of_payload-as_dict :
      (c u : String)
      → phase_in st.phase valid_phases ≡ true
      → st.schema_version ≡ pos 2
      → state_of_payload (as_dict st) c u ≡ ok st
  unfolding state_of_payload as_dict find as_fields as_items
  state_of_payload-as_dict c u h g =
      λ i. ok (record st { phase = to_phase-phase_value st.phase h i; schema_version = sym g i })

module _ (st : MigrationState) where
  read_filled :
      (c u : String)
      → IsValid st
      → st.schema_version ≡ pos 2
      → state_of_payload (as_dict (filled st)) c u ≡ ok (filled st)
  read_filled c u v h =
      state_of_payload-as_dict (filled st) c u
        (phase_in_valid st.phase ∙ le→leb (rank st.phase) 12 v.known) h

  -- What `asdict` renders of a well-formed state of the supported schema, `from_dict` reads back,
  -- with the defaults of its sections filled in.
  pub from_dict-as_dict :
      (w : World)
      → IsValid st
      → st.schema_version ≡ pos 2
      → from_dict (as_dict st) w ≡ (ok (filled st), record w { ticks = w.ticks + 1 + 1 })
  unfolding from_dict ◌>>=◌
  from_dict-as_dict w v h =
      let c = w.clock w.ticks in
      let u = w.clock (w.ticks + 1) in
      let valid = IsValid-validate (filled st) (IsValid-filled st v) in
      let e = read_filled c u v h in ground (arith, normalize-as_dict st h, e, valid)
