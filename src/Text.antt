-- ===== src/Text.antt =====
-- Python's text methods, as far as the controller uses them, over code points.
pub mod Laws
pub mod Path
use hv2pve.Prelude.{
  ℕ, zero, suc, ◌+◌, ◌-◌, ◌/◌, ◌%◌, String, ◌≡◌, refl, Bool, true, false, ◌&&◌, ◌||◌, Option, none,
  some, List, [], ◌∷◌, ltb, leb, ◌==◌, if◌then◌else◌,
}
use hv2pve.Prelude.Int.{ℤ, pos, negsuc}
use Prim.Native.Char.{Char, code}

-- A character before a text.
pattern abbrev pub glue : Char → String → String
glue c s = String.◌∷◌ c s

abbrev pub is_empty : String → Bool
is_empty String.[] = true
is_empty (glue c s) = false

-- `s + t`
unfoldable pub cat : String → String → String
cat String.[] t = t
cat (glue c s) t = glue c (cat s t)

unfoldable pub cat_all : List String → String
unfolding cat
cat_all [] = String.[]
cat_all (s ∷ ss) = cat s (cat_all ss)

-- `str.isspace` of a character (ASCII).
abbrev pub is_blank : Char → Bool
is_blank c = code c == 32 || leb 9 (code c) && leb (code c) 13 || leb 28 (code c) && leb (code c) 31

-- A character that ends a line for `str.splitlines`.
abbrev pub is_break : Char → Bool
is_break c =
    leb 10 (code c) && leb (code c) 13
    || leb 28 (code c) && leb (code c) 30
    || code c == 133
    || code c == 8232
    || code c == 8233

unfoldable pub add_first : Char → List String → List String
add_first c [] = glue c String.[] ∷ []
add_first c (p ∷ ps) = glue c p ∷ ps

-- `s.split(c)` for a separator of one character, given by its code.
unfoldable pub split : ℕ → String → List String
unfolding add_first
split sep String.[] = String.[] ∷ []
split sep (glue c s) =
    let rest = split sep s in if code c == sep then String.[] ∷ rest else add_first c rest

-- `s.split(c, 1)`, if `c` is in `s`.
unfoldable pub split_once : ℕ → String → Option (String × String)
split_once sep String.[] = none
split_once sep (glue c s) =
    if code c == sep
    then some (String.[], s)
    else elim (split_once sep s) [ none ↦ none | some (a, b) ↦ some (glue c a, b) ]

-- `t.join(…)`
unfoldable pub join : String → List String → String
unfolding cat
join t [] = String.[]
join t (p ∷ []) = p
join t (p ∷ q ∷ ps) = cat p (cat t (join t (q ∷ ps)))

-- `s.startswith(p)`
unfoldable pub starts_with : String → String → Bool
starts_with s String.[] = true
starts_with String.[] (glue d p) = false
starts_with (glue c s) (glue d p) = code c == code d && starts_with s p

unfoldable pub left_strip : String → String
left_strip String.[] = String.[]
left_strip (glue c s) = let rest = left_strip s in if is_blank c then rest else glue c s

unfoldable pub right_strip : String → String
right_strip String.[] = String.[]
right_strip (glue c s) =
    let rest = right_strip s in if is_blank c && is_empty rest then String.[] else glue c rest

-- `s.strip()`
abbrev pub strip : String → String
strip s = left_strip (right_strip s)

-- `s.splitlines()`; the flag says that the character before was a carriage return.
split_lines : String → Bool → String → List String
split_lines cur after_cr String.[] = if is_empty cur then [] else cur ∷ []
split_lines cur after_cr (glue c s) =
    let skip = split_lines cur false s in
    let closed = cur ∷ split_lines String.[] (code c == 13) s in
    let longer = split_lines (cat cur (glue c String.[])) false s in
    if after_cr && code c == 10 then skip else if is_break c then closed else longer

unfoldable pub lines : String → List String
unfolding split_lines cat
lines s = split_lines String.[] false s

split_words : String → String → List String
split_words cur String.[] = if is_empty cur then [] else cur ∷ []
split_words cur (glue c s) =
    let closed = split_words String.[] s in
    let longer = split_words (cat cur (glue c String.[])) s in
    if is_blank c then (if is_empty cur then closed else cur ∷ closed) else longer

-- `s.split()`
unfoldable pub words : String → List String
unfolding split_words cat
words s = split_words String.[] s

unfoldable pub digit : ℕ → String
digit n =
    if n == 0
    then "0"
    else if n == 1
    then "1"
    else if n == 2
    then "2"
    else if n == 3
    then "3"
    else if n == 4
    then "4"
    else if n == 5
    then "5"
    else if n == 6
    then "6"
    else if n == 7
    then "7"
    else if n == 8
    then "8"
    else "9"

unfoldable pub show_digits : ℕ → ℕ → String → String
show_digits zero n done = done
show_digits (suc fuel) n done =
    let next = cat (digit (n % 10)) done in
    let more = show_digits fuel (n / 10) next in if ltb n 10 then next else more

-- `str(n)`: a number has fewer digits than its value and one.
unfoldable pub show_nat : ℕ → String
unfolding show_digits digit cat
show_nat n = show_digits (suc n) n String.[]

unfoldable pub show : ℤ → String
unfolding show_nat cat
show (pos n) = show_nat n
show (negsuc n) = cat "-" (show_nat (n + 1))

nth : ℕ → String → Char → Char
nth n String.[] c = c
nth zero (glue d s) c = d
nth (suc n) (glue d s) c = nth n s c

-- `c.lower()` of an ASCII letter.
lower_char : Char → Char
lower_char c =
    if leb b'A' (code c) && leb (code c) b'Z'
    then nth (code c - b'A') "abcdefghijklmnopqrstuvwxyz" c
    else c

-- `s.lower()`, of ASCII text.
unfoldable pub lower : String → String
unfolding lower_char nth
lower String.[] = String.[]
lower (glue c s) = glue (lower_char c) (lower s)

-- `p in s`
unfoldable pub contains : String → String → Bool
unfolding starts_with
contains String.[] p = is_empty p
contains (glue c s) p = starts_with (glue c s) p || contains s p

-- `len(s)` and `s[:n]`, in characters.
unfoldable pub char_count : String → ℕ
char_count String.[] = 0
char_count (glue c s) = suc (char_count s)

unfoldable pub prefix : ℕ → String → String
prefix zero s = String.[]
prefix (suc n) String.[] = String.[]
prefix (suc n) (glue c s) = glue c (prefix n s)

-- `s.replace(c, t)` for a single character.
unfoldable pub replace_char : ℕ → String → String → String
unfolding cat
replace_char c t String.[] = String.[]
replace_char c t (glue d s) =
    let rest = replace_char c t s in if code d == c then cat t rest else glue d rest

-- `shlex.quote`: a text of safe characters stays, any other is put in single quotes.
is_safe : ℕ → Bool
is_safe c =
    leb b'a' c && leb c b'z'
    || leb b'A' c && leb c b'Z'
    || leb b'0' c && leb c b'9'
    || c == b'_'
    || c == b'@'
    || c == b'%'
    || c == b'+'
    || c == b'='
    || c == b':'
    || c == b','
    || c == b'.'
    || c == b'/'
    || c == b'-'

all_safe : String → Bool
all_safe String.[] = true
all_safe (glue c s) = is_safe (code c) && all_safe s

escape_quotes : String → String
escape_quotes String.[] = String.[]
escape_quotes (glue c s) =
    let rest = escape_quotes s in if code c == 39 then cat "'\"'\"'" rest else glue c rest

unfoldable pub quote : String → String
unfolding is_safe all_safe escape_quotes cat
quote s = if is_empty s then "''" else if all_safe s then s else cat "'" (cat (escape_quotes s) "'")

texts_run :
    (lines "a: 1\r\nb: 2\n" ≡ "a: 1" ∷ "b: 2" ∷ [])
    × (words " status:  stopped\n" ≡ "status:" ∷ "stopped" ∷ [])
    × (quote "it's" ≡ "'it'\"'\"'s'")
    × (show (negsuc 1204) ≡ "-1205")
    × (join "," (split b',' "e1000=AA,bridge=vmbr0") ≡ "e1000=AA,bridge=vmbr0")
    × (strip " x y " ≡ "x y")
unfolding lines words quote show join split left_strip right_strip
texts_run = (refl, refl, refl, refl, refl, refl)
