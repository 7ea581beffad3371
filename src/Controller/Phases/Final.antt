-- ===== src/Controller/Phases/Final.antt =====
-- controller/hv2pve.py: histories of commands on a migration that is closed.
use hv2pve.Prelude.{String, ◌≡◌, refl, sym, inl, inr, true, false, List, arith}
use hv2pve.World.{World}
use hv2pve.State.Record.{MigrationState}
use hv2pve.State.Phase.{Phase, closed, phase_in, allowed_transitions}
use hv2pve.State.Phase.Moves.{Moves, stay, move}
use hv2pve.Controller.Work.Stored.{Recorded}
use hv2pve.Controller.Phases.{FollowsFrom}
use hv2pve.Controller.Phases.Reach.{history-Follows}
use hv2pve.Controller.Command.{Command}
use hv2pve.Controller.Main.{history}
use hv2pve.Controller.Work.Execute.{AllStep}
use mathlib.Core.Path.{subst}

abbrev pub IsClosed : MigrationState → Type 0
IsClosed st = st.phase ≡ closed

no_move : (p q : Phase) → p ≡ closed → phase_in q (allowed_transitions p) ≡ true → ⊥
unfolding allowed_transitions phase_in
no_move p q e h =
    let h' : false ≡ true = subst (λ x. phase_in q (allowed_transitions x) ≡ true) e h in
    ground (arith, h')

Moves-closed : (q : Phase) → Moves closed q → q ≡ closed
Moves-closed closed stay = refl
Moves-closed q (move {p} r m e) = absurd (no_move p r (Moves-closed p m) e)

module _ (P Q : MigrationState → Type 0) (f : (st : MigrationState) → P st → Q st) where
  Recorded-map : (path : String) (w : World) → Recorded P path w → Recorded Q path w
  Recorded-map path w u = record {
    ticking = u.ticking;
    apart = u.apart;
    stored = elim u.stored [
      | inl (none_there, e) ↦ absurd none_there
      | inr (st, h) ↦ inr (
        st,
        record { found = h.found; valid = h.valid; current = h.current; kept = f st (h.kept) },
      )
    ];
  }

-- Where the state file holds a well-formed state that is closed, it holds such a state after every
-- history of commands but `init` and `ingest-baseline`, whatever their order, their arguments, the
-- answers of the host and the errors: the file is there afterwards, and closed. The clock reads
-- texts that are not empty, and the temporary file is not the state file.
pub history-IsClosed :
    (path : String) (cs : List Command) (w : World)
    → AllStep cs
    → Recorded IsClosed path w
    → Recorded IsClosed path (history path cs w)
history-IsClosed path cs w steps u =
    Recorded-map (FollowsFrom closed) IsClosed (λ st m. Moves-closed st.phase m) path
      (history path cs w)
      (history-Follows closed path cs w steps (
        Recorded-map IsClosed (FollowsFrom closed) (λ st e. subst (Moves closed) (sym e) stay) path
          w u))
