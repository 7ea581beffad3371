-- ===== src/Controller/Parser/Reads.antt =====
-- Words that are read as options, one option after another.
use mathlib.Core.Path.{subst}
use hv2pve.Prelude.{
  ℕ, String, ◌≡◌, refl, ap, ◌∙◌, inl, inr, Bool, true, false, Option, none, some, List, [], ◌∷◌,
  arith, eq_iff, str_eq, Bool-cases,
}
use hv2pve.Text.{starts_with, show_nat}
use hv2pve.Controller.Options.{
  Takes, a_text, a_number, a_flag, a_choice, Given, text_value, number_value, flag_set, OptionSpec,
  Args, Token, known, word, find_option, classify, classify_all, mem_text, convert, wait, act,
  parsed, consume,
}
use hv2pve.Prelude.Int.{pos}
use hv2pve.Json.Number.Laws.{parse_int-show_nat, show_nat_plain}

-- A value that is not taken for an option.
abbrev pub IsPlain : String → Type 0
IsPlain s = starts_with s "-" ≡ false

plain-ne-dashes : (s : String) → IsPlain s → str_eq s "--" ≡ false
unfolding starts_with
plain-ne-dashes s h = elim (Bool-cases (str_eq s "--")) [
  | inr e ↦ e
  | inl e ↦
      let same : s ≡ "--" = ground (arith, eq_iff s "--") in
      let dash = subst (λ x. starts_with x "-" ≡ false) same h in absurd (ground arith)
]

-- A name of an option, in full.
pub record IsName (s : String) : Type 0 where
  pub dash : starts_with s "-" ≡ true
  pub other : str_eq s "--" ≡ false

consume_name :
    (o : OptionSpec) (args : Args) (ts : List Token)
    → act o.takes none ≡ wait
    → consume none args false (known o none ∷ ts) ≡ consume (some o) args false ts
unfolding consume
consume_name o args ts a = rw (a, consume) refl

consume_value :
    (o : OptionSpec) (s : String) (g : Given) (args : Args) (ts : List Token)
    → convert o.takes s ≡ some g
    → consume (some o) args false (word s ∷ ts) ≡ consume none ((o.name, g) ∷ args) false ts
unfolding consume
consume_value o s g args ts c = rw (c, consume) refl

module _ (options : List OptionSpec) where
  -- The words ss, read where the namespace is args, leave args'.
  pub record Reads (args : Args) (ss : List String) (args' : Args) : Type 0 where
    pub tokens : List Token
    pub told : classify_all options ss ≡ some tokens
    pub read : consume none args false tokens ≡ parsed args' false

  Reads-nothing_at : (args : Args) → Reads args [] args
  unfolding classify_all consume
  Reads-nothing_at args = record { tokens = []; told = refl; read = refl }

  -- The parser declares an option.
  pub record Declares (name : String) (takes : Takes) : Type 0 where
    pub required : Bool
    pub default : Option Given
    pub found :
        find_option name options
        ≡ some (record { name = name; takes = takes; required = required; default = default })
    pub is_name : IsName name

  told_name :
      (name : String) (o : OptionSpec) (ss : List String) (ts : List Token)
      → find_option name options ≡ some o
      → IsName name
      → classify_all options ss ≡ some ts
      → classify_all options (name ∷ ss) ≡ some (known o none ∷ ts)
  unfolding classify_all classify
  told_name name o ss ts f n t = rw (n.other) (rw (n.dash, f, t) refl)

  told_word :
      (s : String) (ss : List String) (ts : List Token)
      → IsPlain s
      → classify_all options ss ≡ some ts
      → classify_all options (s ∷ ss) ≡ some (word s ∷ ts)
  unfolding classify_all classify
  told_word s ss ts h t = rw (plain-ne-dashes s h) (rw (h, t) refl)

pub Reads-nothing : {options : List OptionSpec} {args : Args} → Reads options args [] args
Reads-nothing {options} {args} = Reads-nothing_at options args

pub declared :
    {options : List OptionSpec} {name : String} {takes : Takes} {required : Bool}
    {default : Option Given}
    → ◌≡◌ {A = Option OptionSpec × Bool × Bool}
        (find_option name options, starts_with name "-", str_eq name "--")
        (
          some (record { name = name; takes = takes; required = required; default = default }),
          true,
          false,
        )
    → Declares options name takes
declared {required} {default} e = record {
  required = required;
  default = default;
  found = ap (λ x. x.0) e;
  is_name = record { dash = ap (λ x. x.1) e; other = ap (λ x. x.2) e };
}

module _ {options : List OptionSpec} {args : Args} (name : String) {ss : List String}
    {args' : Args} where
  -- An option with a value that its type takes.
  Reads-value :
      (takes : Takes) (s : String) (g : Given)
      → Declares options name takes
      → act takes none ≡ wait
      → convert takes s ≡ some g
      → IsPlain s
      → Reads options ((name, g) ∷ args) ss args'
      → Reads options args (name ∷ s ∷ ss) args'
  Reads-value takes s g d a c h r =
      let o : OptionSpec = record {
        name = name;
        takes = takes;
        required = d.required;
        default = d.default;
      } in
      record {
        tokens = known o none ∷ word s ∷ r.tokens;
        told =
            told_name options name o (s ∷ ss) (word s ∷ r.tokens) d.found d.is_name
              (told_word options s ss r.tokens h r.told);
        read =
            consume_name o args (word s ∷ r.tokens) a
            ∙ consume_value o s g args r.tokens c
            ∙ r.read;
      }

  pub Reads-text :
      (s : String)
      → Declares options name a_text
      → IsPlain s
      → Reads options ((name, text_value s) ∷ args) ss args'
      → Reads options args (name ∷ s ∷ ss) args'
  unfolding act convert
  Reads-text s d h r = Reads-value a_text s (text_value s) d refl refl h r

  pub Reads-number :
      (n : ℕ)
      → Declares options name a_number
      → Reads options ((name, number_value (pos n)) ∷ args) ss args'
      → Reads options args (name ∷ show_nat n ∷ ss) args'
  unfolding act convert
  Reads-number n d r =
      Reads-value a_number (show_nat n) (number_value (pos n)) d refl
        (rw (parse_int-show_nat n, convert) refl) (show_nat_plain n) r

  pub Reads-choice :
      (texts : List String) (s : String)
      → Declares options name (a_choice texts)
      → mem_text s texts ≡ true
      → IsPlain s
      → Reads options ((name, text_value s) ∷ args) ss args'
      → Reads options args (name ∷ s ∷ ss) args'
  unfolding act convert
  Reads-choice texts s d m h r =
      Reads-value (a_choice texts) s (text_value s) d refl (rw (m, convert) refl) h r

  pub Reads-flag :
      Declares options name a_flag
      → Reads options ((name, flag_set) ∷ args) ss args'
      → Reads options args (name ∷ ss) args'
  unfolding consume act
  Reads-flag d r =
      let o : OptionSpec = record {
        name = name;
        takes = a_flag;
        required = d.required;
        default = d.default;
      } in
      record {
        tokens = known o none ∷ r.tokens;
        told = told_name options name o ss r.tokens d.found d.is_name r.told;
        read = r.read;
      }
