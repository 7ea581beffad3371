-- ===== src/Controller/Options.antt =====
-- How the standard library's `argparse` reads a command line by the options that a parser declares:
-- long options that take a value, a number, a choice or nothing, the abbreviations of their names,
-- `--name=value`, and `-h`.
pub mod Declared
use Prim.Native.Char.{Char, code}
use hv2pve.Prelude.{
  ℕ, ◌-◌, String, Bool, true, false, ◌&&◌, ◌||◌, not, Option, none, some, List, [], ◌∷◌, map, leb,
  ◌==◌, str_eq, if◌then◌else◌,
}
use hv2pve.Prelude.Int.{ℤ}
use hv2pve.Text.{glue, is_empty, split_once, starts_with, contains}
use hv2pve.Json.Number.{parse_int}

pub data Takes : Type 0 where
  a_text a_number a_flag long_help short_help : Takes
  a_choice : List String → Takes

-- What an option was given.
pub data Given : Type 0 where
  text_value : String → Given
  number_value : ℤ → Given
  flag_set : Given

pub record OptionSpec : Type 0 where
  pub name : String
  pub takes : Takes
  pub required : Bool
  pub default : Option Given

-- A namespace: the newest entry first.
abbrev pub Args : Type 0
Args = List (String × Given)

-- A word of the command line, as it is told apart before any option is looked at: an option with
-- the value that `=` gives it, an option that nobody declares, a plain word, or `--`.
pub data Token : Type 0 where
  known : OptionSpec → Option String → Token
  unknown dashes : Token
  word : String → Token

unfoldable pub find_option : String → List OptionSpec → Option OptionSpec
find_option s [] = none
find_option s (o ∷ os) = if str_eq o.name s then some o else find_option s os

-- The options whose name begins with a text.
unfoldable pub abbreviated : String → List OptionSpec → List OptionSpec
unfolding starts_with
abbreviated s [] = []
abbreviated s (o ∷ os) =
    let rest = abbreviated s os in if starts_with o.name s then o ∷ rest else rest

is_digit : Char → Bool
is_digit c = leb b'0' (code c) && leb (code c) b'9'

all_digits : String → Bool
all_digits String.[] = true
all_digits (glue c s) = is_digit c && all_digits s

-- `^-\d+$|^-\d*\.\d+$` on what follows the dash.
pub is_number : String → Bool
unfolding split_once
is_number s = not (is_empty s) && all_digits s || elim (split_once b'.' s) [
  | none ↦ false
  | some (a, b) ↦ all_digits a && not (is_empty b) && all_digits b
]

after_dash : String → String
after_dash String.[] = String.[]
after_dash (glue c s) = s

-- One option is meant, none, in which case a negative number or a text with a blank is a plain
-- word, or several, which is an error.
pub meant : String → Option String → List OptionSpec → Option Token
unfolding contains
meant s explicit (o ∷ []) = some (known o explicit)
meant s explicit [] = some (if is_number (after_dash s) || contains s " " then word s else unknown)
meant s explicit (o ∷ p ∷ os) = none

-- A word with a dash in front that is no option's name in full, up to a `=` or whole.
pub by_beginning : List OptionSpec → String → String → Option String → Option Token
by_beginning options s beginning explicit =
    if starts_with s "--"
    then meant s explicit (abbreviated beginning options)
    else elim (find_option "-h" options) [
      | none ↦ meant s explicit []
      | some o ↦
          if starts_with s "-h"
          then some (known o (some (after_dash (after_dash s))))
          else meant s explicit []
    ]

pub dashed : List OptionSpec → String → Option Token
dashed options s = elim (split_once b'=' s) [
  | none ↦ by_beginning options s s none
  | some (name, value) ↦ elim (find_option name options) [
    | some o ↦ some (known o (some value))
    | none ↦ by_beginning options s name (some value)
  ]
]

-- `_parse_optional`
unfoldable pub classify : List OptionSpec → String → Option Token
unfolding find_option abbreviated is_digit all_digits is_number after_dash meant by_beginning dashed
    starts_with contains split_once
classify options s =
    if starts_with s "-"
    then elim (find_option s options) [
      | some o ↦ some (known o none)
      | none ↦ if str_eq s "-" then some (word s) else dashed options s
    ]
    else some (word s)

-- All words are told apart first, and behind `--` all are plain.
unfoldable pub classify_all : List OptionSpec → List String → Option (List Token)
unfolding classify
classify_all options [] = some []
classify_all options (s ∷ ss) =
    if str_eq s "--" then some (dashes ∷ map word ss) else elim (classify options s) [
      | none ↦ none
      | some t ↦ elim (classify_all options ss) [ none ↦ none | some ts ↦ some (t ∷ ts) ]
    ]

pub mem_text : String → List String → Bool
mem_text s [] = false
mem_text s (t ∷ ts) = str_eq s t || mem_text s ts

-- `type` and `choices` on a value.
unfoldable pub convert : Takes → String → Option Given
unfolding parse_int mem_text
convert a_text s = some (text_value s)
convert a_number s = elim (parse_int s) [ none ↦ none | some n ↦ some (number_value n) ]
convert (a_choice texts) s = if mem_text s texts then some (text_value s) else none
convert a_flag s = none
convert long_help s = none
convert short_help s = none

-- What an option does when it is met: it takes its value, waits for the next word, or ends the
-- program with an exit code.
pub data Action : Type 0 where
  take_value : Given → Action
  wait : Action
  leave : ℕ → Action

-- `-hh…` is `-h` more than once.
only_h : String → Bool
only_h String.[] = false
only_h (glue c String.[]) = code c == b'h'
only_h (glue c (glue d s)) = code c == b'h' && only_h (glue d s)

pub taken : Option Given → Action
taken none = leave 2
taken (some g) = take_value g

unfoldable pub act : Takes → Option String → Action
unfolding taken only_h convert
act a_flag none = take_value flag_set
act a_flag (some s) = leave 2
act long_help none = leave 0
act long_help (some s) = leave 2
act short_help none = leave 0
act short_help (some s) = if only_h s then leave 0 else leave 2
act a_text none = wait
act a_text (some s) = taken (convert a_text s)
act a_number none = wait
act a_number (some s) = taken (convert a_number s)
act (a_choice texts) none = wait
act (a_choice texts) (some s) = taken (convert (a_choice texts) s)

-- How reading ends: with an exit code, or with a namespace and whether words were left over.
pub data Reading : Type 0 where
  stopped : ℕ → Reading
  parsed : Args → (left_over : Bool) → Reading

-- The loop over the words; the option, if any, waits for its value.
unfoldable pub consume : Option OptionSpec → Args → Bool → List Token → Reading
unfolding act convert
consume none args left_over [] = parsed args left_over
consume none args left_over (word s ∷ ts) = consume none args true ts
consume none args left_over (unknown ∷ ts) = consume none args true ts
consume none args left_over (dashes ∷ ts) = consume none args true ts
consume none args left_over (known o explicit ∷ ts) = elim (act o.takes explicit) [
  | take_value g ↦ consume none ((o.name, g) ∷ args) left_over ts
  | wait ↦ consume (some o) args left_over ts
  | leave n ↦ stopped n
]
consume (some o) args left_over [] = stopped 2
consume (some o) args left_over (word s ∷ ts) = elim (convert o.takes s) [
  | none ↦ stopped 2
  | some g ↦ consume none ((o.name, g) ∷ args) left_over ts
]
consume (some o) args left_over (unknown ∷ ts) = stopped 2
consume (some o) args left_over (dashes ∷ ts) = stopped 2
consume (some o) args left_over (known p explicit ∷ ts) = stopped 2

unfoldable pub look_up : String → Args → Option Given
look_up name [] = none
look_up name ((k, g) ∷ args) = if str_eq k name then some g else look_up name args

pub defaults : List OptionSpec → Args
defaults [] = []
defaults (o ∷ os) = elim (o.default) [ none ↦ defaults os | some g ↦ (o.name, g) ∷ defaults os ]

pub all_given : List OptionSpec → Args → Bool
all_given [] args = true
all_given (o ∷ os) args =
    (not o.required || elim (look_up o.name args) [ none ↦ false | some g ↦ true ])
    && all_given os args

-- A required option that was not given is an error, and so are words that are left over.
pub finish : List OptionSpec → Reading → Reading
finish options (stopped n) = stopped n
finish options (parsed args left_over) =
    if not (all_given options args) || left_over then stopped 2 else parsed args false

-- `parse_args` of a parser that has options only. Words may be left over from before.
unfoldable pub parse_options : List OptionSpec → Bool → List String → Reading
unfolding classify_all consume defaults all_given finish look_up
parse_options options left_over ss = elim (classify_all options ss) [
  | none ↦ stopped 2
  | some ts ↦ finish options (consume none (defaults options) left_over ts)
]
