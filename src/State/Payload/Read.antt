-- ===== src/State/Payload/Read.antt =====
use hv2pve.Prelude.{String, ◌≡◌}
use hv2pve.Json.{Fields}
use hv2pve.Exec.{ok, pure, lift, ◌>>◌}
use hv2pve.Exec.Laws.{bind-ok, Returns, Returns-ok, Returns-and_then}
use hv2pve.World.{World, utc_now}
use hv2pve.State.Record.{schema_version_supported, MigrationState}
use hv2pve.State.Validate.{validate}
use hv2pve.State.Payload.{normalize_payload, state_of_payload, from_dict}
use hv2pve.Prelude.Int.{pos}
use hv2pve.State.Validate.Laws.{IsValid, validate-IsValid}
use mathlib.Core.Path.{subst}

abbrev IsCurrent : MigrationState → Type 0
IsCurrent st = st.schema_version ≡ schema_version_supported

state_of_payload-IsCurrent :
    (p : Fields) (created updated : String) → Returns IsCurrent (state_of_payload p created updated)
unfolding state_of_payload
state_of_payload-IsCurrent p created updated = search (Returns-and_then, Returns-ok) depth 20

-- The last steps of `from_dict`.
checked-parts :
    (st' st : MigrationState) (w : World)
    → ((do lift (validate st'); pure st') w).0 ≡ ok st
    → (validate st ≡ ok tt) × (st' ≡ st)
checked-parts st' st w h =
    let (x, e, k) = bind-ok (lift (validate st')) (λ x. pure st') w st h in
    let same : st' ≡ st = cc in (subst (λ t. validate t ≡ ok tt) same e, same)

from_dict-parts :
    (d : Fields) (w : World) (st : MigrationState)
    → (from_dict d w).0 ≡ ok st
    → IsCurrent st × (validate st ≡ ok tt)
unfolding from_dict
from_dict-parts d w st h =
    let (p, e1, h1) = bind-ok (lift (normalize_payload d)) _ w st h in
    let (created, e2, h2) = bind-ok utc_now _ w st h1 in
    let (updated, e3, h3) = bind-ok utc_now _ (utc_now w).1 st h2 in
    let (st', e4, h4) =
      bind-ok (lift (state_of_payload p created updated)) _ (utc_now (utc_now w).1).1 st h3 in
    let (valid, same) = checked-parts st' st (utc_now (utc_now w).1).1 h4 in
    (subst IsCurrent same ((state_of_payload-IsCurrent p created updated).at st' e4), valid)

-- Whatever JSON object `from_dict` is given, the state that it returns, if it returns, is well
-- formed and of schema version 2.
pub from_dict-IsValid :
    (d : Fields) (w : World) (st : MigrationState)
    → (from_dict d w).0 ≡ ok st
    → IsValid st × (st.schema_version ≡ pos 2)
from_dict-IsValid d w st h =
    let (current, valid) = from_dict-parts d w st h in (validate-IsValid st valid, current)
