-- ===== src/Controller/Order/History.antt =====
-- The order of a cutover: the defaults, the stamp of a save, and `init`.
use hv2pve.Prelude.{String, ◌≡◌, refl, true, false, Option, arith}
use hv2pve.Json.{find, truthy}
use hv2pve.Exec.Keeps.{Keeps}
use hv2pve.State.Record.{default_cutover, MigrationState}
use hv2pve.State.Payload.Laws.{filled, in_cutover}
use hv2pve.Controller.Ingest.{cmd_init}
use hv2pve.Controller.Work.Stored.{Usable}
use hv2pve.Controller.Work.Commands.{init-Holding}
use hv2pve.Controller.Order.{Ordered, IsOrdered, set_state-Holds, record_event-Holds}

pub Ordered-filled : (st : MigrationState) → Ordered st.cutover → Ordered (filled st).cutover
Ordered-filled st o = record {
  stop_after_authorization = simp (in_cutover st) o.stop_after_authorization;
  final_after_stop = simp (in_cutover st) o.final_after_stop;
  writes_after_final = simp (in_cutover st) o.writes_after_final;
}

pub begun : Ordered default_cutover
unfolding truthy find
begun = record {
  stop_after_authorization = λ h. absurd_bool h;
  final_after_stop = λ h. absurd_bool h;
  writes_after_final = λ h. absurd_bool h;
}
  where
    absurd_bool : {A : Type 0} → false ≡ true → A
    absurd_bool h = ground arith

pub init-Ordered :
    (path : String) (id : Option String) (host vm : String)
    → Keeps (Usable IsOrdered path) (cmd_init id host vm path)
init-Ordered path id host vm =
    init-Holding Unit IsOrdered Ordered-filled (λ now st o. o) path id host vm
      (λ id created updated. begun) (λ w₀ source. set_state-Holds w₀ _ (λ st. refl))
      record_event-Holds
