-- ===== src/Proxmox/Volume/CleanUp.antt =====
-- controller/proxmox.py: the `try`/`finally` of `apply_delta_to_volume` around the applier.
use hv2pve.Prelude.{
  String, ◌≡◌, refl, sym, ap, ◌∙◌, inl, inr, Bool, true, false, ◌&&◌, not, List, [], ◌∷◌, ◌++◌,
  if◌then◌else◌, Bool-cases,
}
use hv2pve.Prelude.Int.{ℤ}
use hv2pve.Exec.{Result, ok, err, pure, unless, continue, ◌>>=◌, ◌>>◌, ignoring_errors}
use hv2pve.World.{Answer, World}
use hv2pve.Process.{check_answer, run}
use hv2pve.Text.{starts_with}
use hv2pve.Proxmox.{ProxmoxSsh, ssh_argv, command, call, remove}
use hv2pve.Proxmox.Volume.{unmap_device, remote_file, apply_argv, clean_up, apply_mapped}
use hv2pve.Exec.Laws.{bind_next}
use mathlib.Core.List.{append_assoc, append-nil}

module _ (pve : ProxmoxSsh) where
  abbrev rm_argv : String → List String
  rm_argv path = ssh_argv pve ("rm" ∷ "-f" ∷ path ∷ [])

  -- The host removes files.
  abbrev pub Removes : (List (List String) → List String → Answer) → Type 0
  Removes remote =
      (ran : List (List String)) (path : String)
      → (out : String) × (check_answer (remote ran (rm_argv path)) ≡ ok out)

  -- The device is unmapped where the call has mapped it, and as an RBD device.
  abbrev pub unmap_runs : String × Bool → List (List String)
  unmap_runs (device, created) =
      if created && starts_with device "/dev/rbd"
      then ssh_argv pve ("rbd" ∷ "unmap" ∷ device ∷ []) ∷ []
      else []

  abbrev pub applier : ℤ → String → List String
  applier vmid device = ssh_argv pve (apply_argv vmid device)

  -- The commands of the clean-up.
  abbrev pub clean_up_runs : ℤ → String × Bool → List (List String)
  clean_up_runs vmid mapping =
      unmap_runs mapping
      ++ rm_argv (remote_file vmid "delta.json")
        ∷ rm_argv (remote_file vmid "delta.bin")
        ∷ rm_argv (remote_file vmid "remote_apply_delta.py")
        ∷ []

  module _ (w : World) (r : Removes w.remote) where
    abbrev behind : List (List String) → World
    behind ran = record w { ran = ran }

    removed :
        (ran : List (List String)) (path : String)
        → remove pve path (behind ran) ≡ (ok tt, behind (ran ++ rm_argv path ∷ []))
    unfolding remove command run ◌>>=◌
    removed ran path = let (out, e) = r ran path in rw e refl

    three_removed :
        (vmid : ℤ) (ran : List (List String))
        → (do
          remove pve (remote_file vmid "delta.json")
          remove pve (remote_file vmid "delta.bin")
          remove pve (remote_file vmid "remote_apply_delta.py"))
            (behind ran)
          ≡ (
            ok tt,
            behind (
                ran
                ++ rm_argv (remote_file vmid "delta.json")
                  ∷ rm_argv (remote_file vmid "delta.bin")
                  ∷ rm_argv (remote_file vmid "remote_apply_delta.py")
                  ∷ []),
          )
    unfolding ◌>>=◌
    three_removed vmid ran =
        let meta = remote_file vmid "delta.json" in
        let payload = remote_file vmid "delta.bin" in
        let ran1 = ran ++ rm_argv meta ∷ [] in
        let ran2 = ran1 ++ rm_argv payload ∷ [] in
        rw
          (
            removed ran meta,
            removed ran1 payload,
            removed ran2 (remote_file vmid "remote_apply_delta.py"),
          )
          (ap (λ l. (ok tt, behind l))
            (append_assoc ran1 (rm_argv payload ∷ [])
                (rm_argv (remote_file vmid "remote_apply_delta.py") ∷ [])
              ∙ append_assoc ran (rm_argv meta ∷ []) _))

    call_runs :
        (ran : List (List String)) (argv : List String)
        → (call pve argv (behind ran)).1 ≡ behind (ran ++ ssh_argv pve argv ∷ [])
    unfolding command run ◌>>=◌
    call_runs ran argv = go (check_answer (w.remote ran (ssh_argv pve argv)))
      where
        go :
            (r : Result String)
            → (continue r (λ text. pure tt) (behind (ran ++ ssh_argv pve argv ∷ []))).1
              ≡ behind (ran ++ ssh_argv pve argv ∷ [])
        go (ok text) = refl
        go (err e) = refl

    -- An error of the unmapping is passed over.
    unmapped :
        (ran : List (List String)) (device : String) (created : Bool)
        → unless (not created) (ignoring_errors (unmap_device pve device)) (behind ran)
          ≡ (ok tt, behind (ran ++ unmap_runs (device, created)))
    unfolding unmap_device
    unmapped ran device false = ap (λ l. (ok tt, behind l)) (sym (append-nil ran))
    unmapped ran device true = elim (Bool-cases (starts_with device "/dev/rbd")) [
      | inl e ↦ rw e (ap (λ v. (ok tt, v)) (call_runs ran ("rbd" ∷ "unmap" ∷ device ∷ [])))
      | inr e ↦ rw e (ap (λ l. (ok tt, behind l)) (sym (append-nil ran)))
    ]

    cleaned :
        (vmid : ℤ) (ran : List (List String)) (mapping : String × Bool)
        → clean_up pve vmid mapping (behind ran)
          ≡ (ok tt, behind (ran ++ clean_up_runs vmid mapping))
    unfolding clean_up
    cleaned vmid ran (device, created) =
        bind_next _ _ (behind ran) (behind (ran ++ unmap_runs (device, created))) tt
          (unmapped ran device created)
        ∙ three_removed vmid (ran ++ unmap_runs (device, created))
        ∙ ap (λ l. (ok tt, behind l)) (append_assoc ran (unmap_runs (device, created)) _)

    -- On a host that removes files, the applier is run on the mapped device and then, whatever its
    -- answer, the device is unmapped if this call has mapped it and its name begins with `/dev/rbd`,
    -- with an error of that passed over, and the three files are removed, in this order; nothing else
    -- is run. The answer of the applier is the result.
    pub apply_mapped-clean_up_runs :
        (vmid : ℤ) (device : String) (created : Bool)
        → apply_mapped pve vmid (device, created) w ≡ (
          check_answer (w.remote w.ran (applier vmid device)),
          record w { ran = w.ran ++ applier vmid device ∷ clean_up_runs vmid (device, created) },
        )
    unfolding apply_mapped command run
    apply_mapped-clean_up_runs vmid device created =
        rw (cleaned vmid (w.ran ++ applier vmid device ∷ []) (device, created)) (
          ap (λ l. (check_answer (w.remote w.ran (applier vmid device)), behind l))
            (append_assoc w.ran (applier vmid device ∷ []) (clean_up_runs vmid (device, created))))
