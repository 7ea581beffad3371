-- ===== src/State/Phase/Moves.antt =====
use hv2pve.Prelude.{ℕ, zero, suc, ◌≤◌, ◌≡◌, refl, sym, ap, ◌∙◌, true, List, [], ◌∷◌, arith, ==_iff}
use hv2pve.State.Phase.{
  Phase, new, discovered, baseline_ready, seeded, tested, syncing, cutover_ready,
  cutover_in_progress, cutover_complete, rollback_in_progress, rolled_back, closed, failed, other,
  rank, phase_eq, phase_in, valid_phases, allowed_transitions,
}

-- Moves from phase to phase along the table of transitions.

pub data Moves (start : Phase) : Phase → Type 0 where
  stay : Moves start start
  move :
      {p : Phase} (q : Phase)
      → Moves start p
      → phase_in q (allowed_transitions p) ≡ true
      → Moves start q

nth_phase : List Phase → ℕ → Phase
nth_phase [] n = failed
nth_phase (p ∷ ps) zero = p
nth_phase (p ∷ ps) (suc n) = nth_phase ps n

unrank : ℕ → Phase
unrank n = nth_phase valid_phases n

unrank-rank : (p : Phase) → rank p ≤ 12 → unrank (rank p) ≡ p
unfolding rank unrank nth_phase
unrank-rank new h = refl
unrank-rank discovered h = refl
unrank-rank baseline_ready h = refl
unrank-rank seeded h = refl
unrank-rank tested h = refl
unrank-rank syncing h = refl
unrank-rank cutover_ready h = refl
unrank-rank cutover_in_progress h = refl
unrank-rank cutover_complete h = refl
unrank-rank rollback_in_progress h = refl
unrank-rank rolled_back h = refl
unrank-rank closed h = refl
unrank-rank failed h = refl
unrank-rank (other v) h = absurd (omega arith)

same_rank : (p q : Phase) → rank p ≤ 12 → rank p ≡ rank q → p ≡ q
same_rank p q h e = sym (unrank-rank p h) ∙ ap unrank e ∙ unrank-rank q (rw (← e) h)

equal_ranks : (p q : Phase) → rank p ≤ 12 → phase_eq p q ≡ true → rank p ≡ rank q
unfolding phase_eq rank
equal_ranks (other v) q h e = absurd (omega arith)
equal_ranks new q h e = ground (arith, ==_iff (rank new) (rank q))
equal_ranks discovered q h e = ground (arith, ==_iff (rank discovered) (rank q))
equal_ranks baseline_ready q h e = ground (arith, ==_iff (rank baseline_ready) (rank q))
equal_ranks seeded q h e = ground (arith, ==_iff (rank seeded) (rank q))
equal_ranks tested q h e = ground (arith, ==_iff (rank tested) (rank q))
equal_ranks syncing q h e = ground (arith, ==_iff (rank syncing) (rank q))
equal_ranks cutover_ready q h e = ground (arith, ==_iff (rank cutover_ready) (rank q))
equal_ranks cutover_in_progress q h e = ground (arith, ==_iff (rank cutover_in_progress) (rank q))
equal_ranks cutover_complete q h e = ground (arith, ==_iff (rank cutover_complete) (rank q))
equal_ranks rollback_in_progress q h e = ground (arith, ==_iff (rank rollback_in_progress) (rank q))
equal_ranks rolled_back q h e = ground (arith, ==_iff (rank rolled_back) (rank q))
equal_ranks closed q h e = ground (arith, ==_iff (rank closed) (rank q))
equal_ranks failed q h e = ground (arith, ==_iff (rank failed) (rank q))

-- A phase that is equal to another, in the code's sense, is that phase.
pub phase_eq-same : (p q : Phase) → rank p ≤ 12 → phase_eq p q ≡ true → p ≡ q
phase_eq-same p q h e = same_rank p q h (equal_ranks p q h e)
