-- ===== src/Controller/Parser/Laws.antt =====
-- From words that are read to the command that they say.
use hv2pve.Prelude.{
  String, ◌≡◌, refl, sym, ap, ◌∙◌, Bool, true, false, not, Option, none, some, List, ◌∷◌, ◌++◌,
  str_eq,
}
use hv2pve.Controller.Options.{
  a_text, text_value, OptionSpec, Args, word, classify, parsed, look_up, defaults, all_given,
  finish, parse_options,
}
use hv2pve.Controller.Options.Declared.{
  help_options, text_of, maybe_text, maybe_number, is_set, Subparser,
}
use hv2pve.Controller.Subparsers.{plain, build_parser}
use hv2pve.Controller.Parser.{find_parser, run_command, request_of, parse_args}
use hv2pve.Controller.Parser.Reads.{Reads, Declares, Reads-nothing, Reads-text}
use hv2pve.Controller.Command.{Command, status, seed}
use hv2pve.Controller.Parser.Lines.{pve_words, PveSayable}
use hv2pve.Prelude.Int.{ℤ}
use hv2pve.Controller.Parser.Optional.{
  maybe_args, as_text, as_number, as_flag, or_given, look_up-maybe_args, Reads-maybe_text,
}
use hv2pve.Proxmox.{ProxmoxSsh}
use hv2pve.Seed.Destination.{SeedRequest}

abbrev pub all_options : Subparser → List OptionSpec
all_options p = help_options ++ p.options

parse_options-Reads :
    (options : List OptionSpec) (ss : List String) (args : Args)
    → Reads options (defaults options) ss args
    → all_given options args ≡ true
    → parse_options options false ss ≡ parsed args false
unfolding parse_options
parse_options-Reads options ss args r h =
    rw (r.told, parse_options) (rw (r.read, finish) (rw (h, finish) refl))

parse_args-Reads :
    (name : String) (p : Subparser) (ss : List String) (args : Args)
    → find_parser name build_parser ≡ some p
    → str_eq name "--" ≡ false
    → classify help_options name ≡ some (word name)
    → Reads (all_options p) (defaults (all_options p)) ss args
    → all_given (all_options p) args ≡ true
    → parse_args (name ∷ ss) ≡ run_command (text_of (look_up "--state" args)) (p.make args)
unfolding parse_args
parse_args-Reads name p ss args f n c r h =
    rw n (rw (c, f) (ap (request_of p.make) (parse_options-Reads (all_options p) ss args r h)))

pub is_set-as_flag : (b : Bool) → is_set (or_given (as_flag b) none) ≡ b
unfolding is_set
is_set-as_flag true = refl
is_set-as_flag false = refl

pub maybe_text-as_text : (o : Option String) → maybe_text (or_given (as_text o) none) ≡ o
unfolding maybe_text
maybe_text-as_text none = refl
maybe_text-as_text (some s) = refl

pub maybe_number-as_number : (o : Option ℤ) → maybe_number (or_given (as_number o) none) ≡ o
unfolding maybe_number
maybe_number-as_number none = refl
maybe_number-as_number (some n) = refl

not-not : (b : Bool) → not (not b) ≡ b
not-not true = refl
not-not false = refl

pub ruleset look_up_rules =
    (look_up-maybe_args, is_set-as_flag, maybe_text-as_text, maybe_number-as_number)

-- The subparser that a name chooses, where there is one.
abbrev pub chosen : Option Subparser → Subparser
chosen none = plain "" status
chosen (some p) = p

abbrev pub parser_named : String → Subparser
parser_named name = chosen (find_parser name build_parser)

-- A command line that is read, and what is looked up in its namespace.
pub says :
    (name : String) {path : String} {c : Command} {ss : List String} {args : Args}
    → find_parser name build_parser ≡ some (parser_named name)
    → str_eq name "--" ≡ false
    → classify help_options name ≡ some (word name)
    → Reads (all_options (parser_named name)) (defaults (all_options (parser_named name))) ss args
    → all_given (all_options (parser_named name)) args ≡ true
    → run_command (text_of (look_up "--state" args)) ((parser_named name).make args)
      ≡ run_command path c
    → parse_args (name ∷ ss) ≡ run_command path c
says name {ss} {args} f n k r h e = parse_args-Reads name (parser_named name) ss args f n k r h ∙ e

-- The options of `add_pve_args`, at the end of a line.
pub Reads-pve :
    {options : List OptionSpec} {args : Args} (pve : ProxmoxSsh)
    → Declares options "--pve-host" a_text
    → Declares options "--pve-user" a_text
    → Declares options "--identity-file" a_text
    → PveSayable pve
    → Reads options args (pve_words pve) (
        maybe_args "--identity-file"
          (as_text pve.identity_file)
          (("--pve-user", text_value pve.user) ∷ ("--pve-host", text_value pve.host) ∷ args))
unfolding pve_words
Reads-pve pve h u i s = Reads-text "--pve-host" pve.host h (s.1) (
    Reads-text "--pve-user" pve.user u (s.2)
      (Reads-maybe_text "--identity-file" pve.identity_file i (s.3) Reads-nothing))

pub same_pve :
    (pve : ProxmoxSsh)
    → PveSayable pve
    → record pve { strict_host_key_checking = "accept-new" } ≡ pve
same_pve pve s = ap (λ t. record pve { strict_host_key_checking = t }) (sym (s.0))

pub same_seed :
    (path : String) (pve : ProxmoxSsh) (q : SeedRequest)
    → PveSayable pve
    → run_command path (
        seed
          (record pve { strict_host_key_checking = "accept-new" })
          (record q { cleanup_on_failure = not (not q.cleanup_on_failure) }))
      ≡ run_command path (seed pve q)
same_seed path pve q s =
    ap
      (λ x.
        run_command path
          (seed x (record q { cleanup_on_failure = not (not q.cleanup_on_failure) })))
      (same_pve pve s)
    ∙ ap (λ b. run_command path (seed pve (record q { cleanup_on_failure = b })))
        (not-not q.cleanup_on_failure)
