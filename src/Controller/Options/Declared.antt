-- ===== src/Controller/Options/Declared.antt =====
-- controller/hv2pve.py: how `build_parser` declares options and reads them back, and `_pve`.
use hv2pve.Prelude.{String, Bool, true, false, Option, none, some, List, [], ◌∷◌}
use hv2pve.Prelude.Int.{ℤ, pos}
use hv2pve.Controller.Command.{Command}
use hv2pve.Proxmox.{ProxmoxSsh}
use hv2pve.Controller.Options.{
  Takes, a_text, a_number, a_flag, long_help, short_help, Given, text_value, number_value,
  OptionSpec, Args, look_up,
}

unfoldable pub option_of : String → Takes → Bool → Option Given → OptionSpec
option_of name takes required default = record {
  name = name;
  takes = takes;
  required = required;
  default = default;
}

-- `p.add_argument(name, required=True)`, with `type=int`, and without `required`.
unfoldable pub needs : String → OptionSpec
needs name = option_of name a_text true none

unfoldable pub needs_number : String → OptionSpec
needs_number name = option_of name a_number true none

unfoldable pub may : String → OptionSpec
may name = option_of name a_text false none

unfoldable pub flag : String → OptionSpec
flag name = option_of name a_flag false none

unfoldable pub help_options : List OptionSpec
help_options = option_of "-h" short_help false none ∷ option_of "--help" long_help false none ∷ []

-- `add_pve_args`
unfoldable pub pve_options : List OptionSpec
pve_options =
    needs "--pve-host"
    ∷ option_of "--pve-user" a_text false (some (text_value "root"))
    ∷ may "--identity-file"
    ∷ []

unfoldable pub text_of : Option Given → String
text_of (some (text_value s)) = s
text_of _ = ""

unfoldable pub number_of : Option Given → ℤ
number_of (some (number_value n)) = n
number_of _ = pos 0

unfoldable pub maybe_text : Option Given → Option String
maybe_text (some (text_value s)) = some s
maybe_text _ = none

unfoldable pub maybe_number : Option Given → Option ℤ
maybe_number (some (number_value n)) = some n
maybe_number _ = none

unfoldable pub is_set : Option Given → Bool
is_set none = false
is_set (some g) = true

-- `_pve(args)`
unfoldable pub pve_of : Args → ProxmoxSsh
unfolding look_up text_of maybe_text
pve_of args = record {
  host = text_of (look_up "--pve-host" args);
  user = text_of (look_up "--pve-user" args);
  identity_file = maybe_text (look_up "--identity-file" args);
  strict_host_key_checking = "accept-new";
}

-- A subparser: its name, its options, and the command it makes of what they were given.
pub record Subparser : Type 0 where
  pub name : String
  pub options : List OptionSpec
  pub make : Args → Command
