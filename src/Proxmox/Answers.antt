-- ===== src/Proxmox/Answers.antt =====
-- A host that answers each command.
use hv2pve.Prelude.{String, ◌≡◌, refl, List, [], ◌∷◌, ◌++◌}
use hv2pve.Prelude.Int.{ℤ}
use hv2pve.Exec.{Result, ok, err, and_then, lift, continue, ◌>>=◌}
use hv2pve.World.{Answer, World}
use hv2pve.Process.{check_answer, run}
use hv2pve.Text.{strip, words, show}
use hv2pve.Proxmox.{ProxmoxSsh, ssh_argv, command, last, status}

-- Every command succeeds, whatever was run before.
abbrev pub Answers : (List (List String) → List String → Answer) → Type 0
Answers remote =
    (ran : List (List String)) (argv : List String)
    → (out : String) × (check_answer (remote ran argv) ≡ ok out)

-- The world with more commands run.
abbrev pub behind : World → List (List String) → World
behind w ran = record w { ran = ran }

module _ (pve : ProxmoxSsh) where
  pub command_answered :
      (w : World)
      → Answers w.remote
      → (ran : List (List String)) (remote : List String)
      → (out : String) × (command pve remote (behind w ran)
          ≡ (ok out, behind w (ran ++ ssh_argv pve remote ∷ [])))
  unfolding command run
  command_answered w a ran remote = let (out, e) = a ran (ssh_argv pve remote) in (out, rw e refl)

  abbrev pub status_argv : ℤ → List String
  status_argv vmid = ssh_argv pve ("qm" ∷ "status" ∷ show vmid ∷ [])

  -- What `status` returns behind the commands that were run.
  abbrev pub reported :
      ℤ → (List (List String) → List String → Answer) → List (List String) → Result String
  reported vmid remote ran =
      and_then (check_answer (remote ran (status_argv vmid))) (λ text. last (words (strip text)))

  pub status-reported :
      (w : World) (vmid : ℤ) (ran : List (List String))
      → status pve vmid (behind w ran)
        ≡ (reported vmid w.remote ran, behind w (ran ++ status_argv vmid ∷ []))
  unfolding status command run ◌>>=◌
  status-reported w vmid ran = go (check_answer (w.remote ran (status_argv vmid)))
    where
      go :
          (r : Result String)
          → continue r
              (λ text. lift (last (words (strip text))))
              (behind w (ran ++ status_argv vmid ∷ []))
            ≡ (
              and_then r (λ text. last (words (strip text))),
              behind w (ran ++ status_argv vmid ∷ []),
            )
      go (ok text) = refl
      go (err e) = refl
