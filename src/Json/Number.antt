-- ===== src/Json/Number.antt =====
-- `int(v)` of a JSON value. Texts are read as Python does: blanks at the ends, a sign, and digits
-- with single underscores between them (ASCII digits only).
pub mod Laws
use Prim.Native.Char.{code}
use mathlib.Core.List.{reverse}
use hv2pve.Prelude.{
  ℕ, zero, suc, ◌+◌, ◌-◌, ◌*◌, String, ◌≡◌, refl, Bool, true, false, ◌&&◌, ◌||◌, Option, none, some,
  List, [], ◌∷◌, leb, ◌==◌, if◌then◌else◌,
}
use hv2pve.Prelude.Int.{ℤ, pos, negsuc}
use hv2pve.Exec.{value_error, type_error, Result, ok, err}
use hv2pve.Json.{Value, obj, arr, str, int, bool, null, bool_number}

pub codes : String → List ℕ
codes String.[] = []
codes (String.◌∷◌ c s) = code c ∷ codes s

pub is_digit : ℕ → Bool
is_digit c = leb b'0' c && leb c b'9'

pub is_space : ℕ → Bool
is_space c = c == 32 || leb 9 c && leb c 13

-- `after` says whether the character before was a digit.
pub digits : List ℕ → ℕ → Bool → Option ℕ
digits [] n after = if after then some n else none
digits (c ∷ cs) n after =
    let more = digits cs (n * 10 + (c - 48)) true in
    let skip = digits cs n false in
    if is_digit c then more else if c == b'_' && after then skip else none

pub drop_spaces : List ℕ → List ℕ
drop_spaces [] = []
drop_spaces (c ∷ cs) = let rest = drop_spaces cs in if is_space c then rest else c ∷ cs

pub strip : List ℕ → List ℕ
strip cs = reverse (drop_spaces (reverse (drop_spaces cs)))

pub negate : ℕ → ℤ
negate zero = pos 0
negate (suc n) = negsuc n

pub signed : List ℕ → Option ℤ
signed [] = none
signed (c ∷ cs) =
    if c == b'-'
    then elim (digits cs 0 false) [ none ↦ none | some n ↦ some (negate n) ]
    else elim (digits (if c == b'+' then cs else c ∷ cs) 0 false) [
      | none ↦ none
      | some n ↦ some (pos n)
    ]

unfoldable pub parse_int : String → Option ℤ
unfolding codes is_digit is_space digits drop_spaces strip negate signed
parse_int s = signed (strip (codes s))

unfoldable pub to_int : Value → Result ℤ
to_int (int n) = ok n
to_int (bool b) = ok (bool_number b)
to_int (str s) = elim (parse_int s) [
  | none ↦ err (value_error "invalid literal for int()")
  | some n ↦ ok n
]
to_int null = err (type_error "int() argument")
to_int (arr vs) = err (type_error "int() argument")
to_int (obj d) = err (type_error "int() argument")

parse_int_runs : to_int (str " -1_024 ") ≡ ok (negsuc 1023)
unfolding to_int parse_int
parse_int_runs = refl
