-- ===== src/Controller/Parser.antt =====
-- controller/hv2pve.py: what becomes of a command line.
pub mod Reads
pub mod Optional
pub mod Lines
pub mod Laws
pub mod RoundTrip
use hv2pve.Prelude.{
  ℕ, String, ◌≡◌, refl, Bool, true, false, Option, none, some, List, [], ◌∷◌, ◌++◌, str_eq,
  if◌then◌else◌,
}
use hv2pve.Prelude.Int.{negsuc}
use hv2pve.Controller.Command.{Command, status, seed, register_sync, close}
use hv2pve.Controller.Options.{
  Args, known, unknown, dashes, word, classify, take_value, wait, leave, act, Reading, stopped,
  parsed, look_up, parse_options,
}
use hv2pve.Controller.Options.Declared.{
  option_of, needs, needs_number, may, flag, help_options, pve_options, text_of, number_of,
  maybe_text, maybe_number, is_set, pve_of, Subparser,
}
use hv2pve.Controller.Subparsers.{
  state_option, confirming, reading, plain, seed_parser, timeout_option, build_parser,
}
use hv2pve.World.{json, World}
use hv2pve.Controller.Main.{Ending, exited, main}

pub find_parser : String → List Subparser → Option Subparser
find_parser name [] = none
find_parser name (p ∷ ps) = if str_eq p.name name then some p else find_parser name ps

-- What a command line asks for: an exit at once, or a command on a state file.
pub data Request : Type 0 where
  exit_with : ℕ → Request
  run_command : (path : String) → Command → Request

pub request_of : (Args → Command) → Reading → Request
request_of make (stopped n) = exit_with n
request_of make (parsed args left_over) = run_command (text_of (look_up "--state" args)) (make args)

-- The subparser that a name chooses, on the words behind the name.
pub dispatch : Bool → List String → Option Subparser → Request
dispatch left_over ss none = exit_with 2
dispatch left_over ss (some p) =
    request_of p.make (parse_options (help_options ++ p.options) left_over ss)

-- The main parser has no option but `-h`: what stands in front of the subcommand is help, an error,
-- or left over.
pub parse_main : Bool → List String → Request
parse_main left_over [] = exit_with 2
parse_main left_over (s ∷ ss) =
    if str_eq s "--" then exit_with 2 else elim (classify help_options s) [
      | none ↦ exit_with 2
      | some (word t) ↦ dispatch left_over ss (find_parser t build_parser)
      | some unknown ↦ parse_main true ss
      | some dashes ↦ exit_with 2
      | some (known o explicit) ↦ elim (act o.takes explicit) [
        | leave n ↦ exit_with n
        | wait ↦ exit_with 2
        | take_value g ↦ exit_with 2
      ]
    ]

-- `build_parser().parse_args()` on `sys.argv[1:]`
unfoldable pub parse_args : List String → Request
unfolding parse_main dispatch request_of find_parser build_parser parse_options help_options
    pve_options pve_of seed_parser confirming reading plain state_option timeout_option option_of
    needs needs_number may flag text_of number_of maybe_text maybe_number is_set look_up classify
    act
parse_args argv = parse_main false argv

-- `hv2pve …`, from the command line to the exit code.
unfoldable pub run_command_line : List String → World → Ending × World
unfolding parse_args main
run_command_line argv w = elim (parse_args argv) [
  | exit_with n ↦ (exited n, w)
  | run_command path c ↦ main path c w
]

command_lines_run :
    (parse_args ("status" ∷ "--state" ∷ "s.json" ∷ []) ≡ run_command "s.json" status)
    × (parse_args ("close" ∷ "--conf=vm 1" ∷ "--state" ∷ "s.json" ∷ [])
        ≡ run_command "s.json" (close "vm 1"))
    × (parse_args ("close" ∷ "--state" ∷ "s.json" ∷ []) ≡ exit_with 2)
    × (parse_args ("seed" ∷ "--st" ∷ "x" ∷ []) ≡ exit_with 2)
    × (parse_args ("status" ∷ "-h" ∷ []) ≡ exit_with 0)
    × (parse_args ("status" ∷ "--state" ∷ "s.json" ∷ "more" ∷ []) ≡ exit_with 2)
    × (parse_args ("register-sync" ∷ "--sequence" ∷ "-4" ∷ "--ref" ∷ "rp" ∷ "--state" ∷ "s" ∷ [])
        ≡ run_command "s" (register_sync (negsuc 3) "rp" none false false))
unfolding parse_args
command_lines_run = (refl, refl, refl, refl, refl, refl, refl)
