-- ===== src/Examples/Lines.antt =====
-- A command line of `register-sync`.
use hv2pve.Prelude.{◌≡◌, refl, true, false, some, [], ◌∷◌}
use hv2pve.Controller.Parser.Lines.{argv_of}
use hv2pve.Text.{starts_with, show}
use hv2pve.Controller.Parser.{run_command, parse_args}
use hv2pve.Examples.Fixtures.{state_path}
use hv2pve.Controller.Command.{register_sync}
use hv2pve.Prelude.Int.{pos}
use hv2pve.Controller.Parser.RoundTrip.{parse_args-argv_of}
use hv2pve.Controller.Parser.Optional.{maybe_words, flag_words}

parse_args-argv_of_example :
    parse_args (argv_of state_path (register_sync (pos 12) "rp12" (some "delta.json") true false))
    ≡ run_command state_path (register_sync (pos 12) "rp12" (some "delta.json") true false)
unfolding starts_with
parse_args-argv_of_example =
    parse_args-argv_of state_path (register_sync (pos 12) "rp12" (some "delta.json") true false)
      refl (tt, refl, refl)

the_words :
    argv_of state_path (register_sync (pos 12) "rp12" (some "delta.json") true false)
    ≡ "register-sync" ∷ "--state" ∷ "state.json" ∷ "--sequence" ∷ "12" ∷ "--reference-point"
      ∷ "rp12" ∷ "--bundle" ∷ "delta.json" ∷ "--verified" ∷ []
unfolding argv_of show maybe_words flag_words
the_words = refl
