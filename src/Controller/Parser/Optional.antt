-- ===== src/Controller/Parser/Optional.antt =====
-- Options that may be left out, and what is looked up behind them.
use hv2pve.Prelude.{
  String, ◌≡◌, refl, Bool, true, false, Option, none, some, List, ◌∷◌, arith, str_eq, if◌then◌else◌,
}
use hv2pve.Prelude.Int.{ℤ, pos, negsuc}
use hv2pve.Text.{show}
use hv2pve.Controller.Options.{
  a_text, a_number, a_flag, Given, text_value, number_value, flag_set, OptionSpec, Args, look_up,
}
use hv2pve.Controller.Parser.Reads.{IsPlain, Reads, Declares, Reads-text, Reads-number, Reads-flag}

unfoldable pub maybe_words : String → Option String → List String → List String
maybe_words name none ss = ss
maybe_words name (some s) ss = name ∷ s ∷ ss

unfoldable pub maybe_show : Option ℤ → Option String
unfolding show
maybe_show none = none
maybe_show (some n) = some (show n)

unfoldable pub flag_words : String → Bool → List String → List String
flag_words name true ss = name ∷ ss
flag_words name false ss = ss

pub maybe_args : String → Option Given → Args → Args
maybe_args name none args = args
maybe_args name (some g) args = (name, g) ∷ args

abbrev pub as_text : Option String → Option Given
as_text none = none
as_text (some s) = some (text_value s)

abbrev pub as_number : Option ℤ → Option Given
as_number none = none
as_number (some n) = some (number_value n)

abbrev pub as_flag : Bool → Option Given
as_flag true = some flag_set
as_flag false = none

abbrev pub or_given : Option Given → Option Given → Option Given
or_given none g = g
or_given (some g) h = some g

pub look_up-maybe_args :
    (name k : String) (g : Option Given) (args : Args)
    → look_up name (maybe_args k g args)
      ≡ (if str_eq k name then or_given g (look_up name args) else look_up name args)
unfolding look_up maybe_args
look_up-maybe_args name k none args = ground arith
look_up-maybe_args name k (some g) args = refl

abbrev pub IsNatural : ℤ → Type 0
IsNatural (pos n) = Unit
IsNatural (negsuc n) = ⊥

abbrev pub MaybePlain : Option String → Type 0
MaybePlain none = Unit
MaybePlain (some s) = IsPlain s

abbrev pub MaybeNatural : Option ℤ → Type 0
MaybeNatural none = Unit
MaybeNatural (some n) = IsNatural n

module _ {options : List OptionSpec} {args : Args} (name : String) {ss : List String}
    {args' : Args} where
  pub Reads-integer :
      (n : ℤ)
      → Declares options name a_number
      → IsNatural n
      → Reads options ((name, number_value n) ∷ args) ss args'
      → Reads options args (name ∷ show n ∷ ss) args'
  unfolding show
  Reads-integer (pos n) d h r = Reads-number name n d r
  Reads-integer (negsuc n) d h r = elim h [ ]

  pub Reads-maybe_text :
      (o : Option String)
      → Declares options name a_text
      → MaybePlain o
      → Reads options (maybe_args name (as_text o) args) ss args'
      → Reads options args (maybe_words name o ss) args'
  unfolding maybe_words maybe_args
  Reads-maybe_text none d h r = r
  Reads-maybe_text (some s) d h r = Reads-text name s d h r

  pub Reads-maybe_flag :
      (b : Bool)
      → Declares options name a_flag
      → Reads options (maybe_args name (as_flag b) args) ss args'
      → Reads options args (flag_words name b ss) args'
  unfolding flag_words maybe_args
  Reads-maybe_flag true d r = Reads-flag name d r
  Reads-maybe_flag false d r = r

pub Reads-maybe_integer :
    {options : List OptionSpec} {args : Args} (name : String) {ss : List String} {args' : Args}
    (o : Option ℤ)
    → Declares options name a_number
    → MaybeNatural o
    → Reads options (maybe_args name (as_number o) args) ss args'
    → Reads options args (maybe_words name (maybe_show o) ss) args'
unfolding maybe_words maybe_args maybe_show
Reads-maybe_integer name none d h r = r
Reads-maybe_integer name (some n) d h r = Reads-integer name n d h r
