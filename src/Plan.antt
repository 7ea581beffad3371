-- ===== src/Plan.antt =====
-- controller/plan.py: the plans that are printed for the operator.
use hv2pve.Prelude.{String, true, List, [], ◌∷◌, if◌then◌else◌}
use hv2pve.Json.{
  Value, null, bool, int, str, arr, obj, Items, nil, cons, Fields, end, field, find, or_else, get,
  truthy, or_value,
}
use hv2pve.Exec.{value_error, type_error, attribute_error, Result, ok, err, and_then}
use hv2pve.State.Record.{MigrationState}

-- `disk.get(a) or disk.get(b)`
abbrev pub either_key : String → String → Fields → Value
either_key a b d = or_value (get a d) (get b d)

disk_plan : Value → Result Value
disk_plan (obj d) = ok (
    obj (
      field "source_path" (either_key "Path" "path" d) (
        field "virtual_size" (either_key "VirtualSizeBytes" "virtual_size_bytes" d) (
          field "controller" (either_key "ControllerType" "controller_type" d)
            (field "location" (either_key "ControllerLocation" "controller_location" d) end)))))
disk_plan null = err (attribute_error "get")
disk_plan (bool b) = err (attribute_error "get")
disk_plan (int n) = err (attribute_error "get")
disk_plan (str s) = err (attribute_error "get")
disk_plan (arr vs) = err (attribute_error "get")

disk_plans : Items → Result Items
disk_plans nil = ok nil
disk_plans (cons v vs) = and_then (disk_plan v) λ p. and_then (disk_plans vs) λ ps. ok (cons p ps)

-- `source.get("disks", [])`, where the list is not empty.
disk_list : Value → Result Items
disk_list (arr (cons v vs)) = ok (cons v vs)
disk_list v =
    if truthy v
    then err (type_error "disks is no list")
    else err (value_error "source disk inventory is empty")

unfoldable pub seed_plan : MigrationState → String → String → Result Fields
unfolding disk_plan disk_plans disk_list truthy
seed_plan st storage test_vnet =
    and_then (disk_list (or_else (find "disks" st.source) (arr nil))) λ disks.
      and_then (disk_plans disks) λ plans. ok (
        field "operation" (str "seed") (
          field "migration_id" st.migration_id (
            field "source"
              (obj (
                field "host" (get "computer_name" st.source) (
                  field "vm" (get "vm_name" st.source)
                    (field "generation" (get "generation" st.source) end))))
              (field "destination"
                (obj (
                  field "storage" (str storage) (
                    field "test_vnet" (str test_vnet)
                      (field "must_remain_isolated" (bool true) end))))
                (field "disks" (arr plans) end)))))

texts : List String → Value
texts ss = arr (items_of ss)
  where
    items_of : List String → Items
    items_of [] = nil
    items_of (s ∷ rest) = cons (str s) (items_of rest)

unfoldable pub cutover_plan : MigrationState → Fields
unfolding texts
cutover_plan st = field "operation" (str "cutover") (
    field "migration_id" st.migration_id (
      field "preconditions"
        (texts (
          "isolated destination test passed" ∷ "latest online sync verified"
          ∷ "destination powered off" ∷ "explicit operator authorization" ∷ []))
        (field "steps"
          (texts (
            "quiesce applications if required" ∷ "stop source Hyper-V VM" ∷ "verify source is off"
            ∷ "create final recovery snapshot/reference point" ∷ "export/apply final RCT delta"
            ∷ "verify destination disks" ∷ "attach destination NIC to production VNet"
            ∷ "start destination VM" ∷ "validate network, guest boot, and applications"
            ∷ "leave source VM powered off for rollback window" ∷ []))
          (field "rollback_warning"
            (str
              "Once the destination accepts writes, rollback to the source discards or requires reconciliation of those destination-side writes.")
            end))))

unfoldable pub rollback_plan : MigrationState → Fields
unfolding texts
rollback_plan st = field "operation" (str "rollback") (
    field "migration_id" st.migration_id (
      field "warning"
        (str
          "Destination writes may be lost or require reconciliation. Stop and isolate the Proxmox VM before restarting the Hyper-V source.")
        (field "destination_writes_possible" (get "destination_writes_possible" st.cutover) (
          field "steps"
            (texts (
              "stop Proxmox destination" ∷ "move destination NIC back to isolated test VNet"
              ∷ "verify destination is stopped" ∷ "restart Hyper-V source"
              ∷ "validate source services and production identity" ∷ "record rollback complete"
              ∷ []))
            end))))
