-- ===== src/Json/Number/Laws.antt =====
-- Numbers that are written out, and read again.
use Prim.Native.Char.{code}
use mathlib.Core.List.{reverse, reverse-append, reverse-reverse}
use hv2pve.Prelude.{
  ℕ, zero, suc, ◌+◌, ◌*◌, ◌/◌, ◌%◌, ◌<◌, String, ◌≡◌, refl, sym, ap, ◌∙◌, inl, inr, Bool, true,
  false, some, List, [], ◌∷◌, ◌++◌, arith, ltb, Bool-cases,
}
use hv2pve.Json.Number.{codes, is_digit, is_space, digits, drop_spaces, strip, signed, parse_int}
use hv2pve.Text.{glue, cat, starts_with, digit, show_digits, show_nat}
use hv2pve.Prelude.Int.{pos}

-- Every code is that of a digit.
abbrev AllDigit : List ℕ → Type 0
AllDigit [] = Unit
AllDigit (c ∷ cs) = (is_digit c ≡ true) × AllDigit cs

digit_code : (n : ℕ) → n < 10 → codes (digit n) ≡ (48 + n) ∷ []
unfolding digit codes
digit_code zero h = refl
digit_code (suc zero) h = refl
digit_code (suc (suc zero)) h = refl
digit_code (suc (suc (suc zero))) h = refl
digit_code (suc (suc (suc (suc zero)))) h = refl
digit_code (suc (suc (suc (suc (suc zero))))) h = refl
digit_code (suc (suc (suc (suc (suc (suc zero)))))) h = refl
digit_code (suc (suc (suc (suc (suc (suc (suc zero))))))) h = refl
digit_code (suc (suc (suc (suc (suc (suc (suc (suc zero)))))))) h = refl
digit_code (suc (suc (suc (suc (suc (suc (suc (suc (suc zero))))))))) h = refl
digit_code (suc (suc (suc (suc (suc (suc (suc (suc (suc (suc n)))))))))) h = absurd (omega arith)

codes-cat : (s t : String) → codes (cat s t) ≡ codes s ++ codes t
unfolding codes cat
codes-cat String.[] t = refl
codes-cat (glue c s) t = ap (λ r. code c ∷ r) (codes-cat s t)

next_codes : (n : ℕ) (done : String) → n < 10 → codes (cat (digit n) done) ≡ (48 + n) ∷ codes done
next_codes n done h = codes-cat (digit n) done ∙ ap (λ r. r ++ codes done) (digit_code n h)

is_digit_of : (n : ℕ) → n < 10 → is_digit (48 + n) ≡ true
unfolding is_digit
is_digit_of n h = ground arith

digits_step :
    (n m : ℕ) (cs : List ℕ) (after : Bool)
    → n < 10
    → digits ((48 + n) ∷ cs) m after ≡ digits cs (m * 10 + n) true
unfolding digits is_digit
digits_step n m cs after h = ground arith

-- The digits that are written, read from the front.
digits-show :
    (fuel n : ℕ) (done : String) (after : Bool)
    → n < fuel
    → digits (codes (show_digits fuel n done)) 0 after ≡ digits (codes done) n true
unfolding show_digits
digits-show zero n done after h = absurd (omega arith)
digits-show (suc fuel) n done after h =
    let step = next_codes (n % 10) done (omega arith) in
    elim (Bool-cases (ltb n 10)) [
      | inl small ↦ rw small (
          rw step (
            digits_step (n % 10) 0 (codes done) after (omega arith)
            ∙ ap (λ m. digits (codes done) m true) (ground arith)))
      | inr large ↦ rw large (
          digits-show fuel (n / 10) (cat (digit (n % 10)) done) after (ground arith)
          ∙ ap (λ cs. digits cs (n / 10) true) step
          ∙ digits_step (n % 10) (n / 10) (codes done) true (omega arith)
          ∙ ap (λ m. digits (codes done) m true) (omega arith))
    ]

digits_show-AllDigit :
    (fuel n : ℕ) (done : String)
    → AllDigit (codes done)
    → AllDigit (codes (show_digits fuel n done))
unfolding show_digits
digits_show-AllDigit zero n done h = h
digits_show-AllDigit (suc fuel) n done h =
    let step = next_codes (n % 10) done (omega arith) in
    let more : AllDigit (codes (cat (digit (n % 10)) done)) =
      rw step (is_digit_of (n % 10) (omega arith), h) in
    elim (Bool-cases (ltb n 10)) [
      | inl small ↦ rw small more
      | inr large ↦ rw large (digits_show-AllDigit fuel (n / 10) (cat (digit (n % 10)) done) more)
    ]

drop_spaces_none : (cs : List ℕ) → AllDigit cs → drop_spaces cs ≡ cs
unfolding drop_spaces is_digit is_space
drop_spaces_none [] h = refl
drop_spaces_none (c ∷ cs) h = ground arith

AllDigit-append : (cs ds : List ℕ) → AllDigit cs → AllDigit ds → AllDigit (cs ++ ds)
AllDigit-append [] ds h k = k
AllDigit-append (c ∷ cs) ds h k = (h.0, AllDigit-append cs ds h.1 k)

reverse-AllDigit : (cs : List ℕ) → AllDigit cs → AllDigit (reverse cs)
reverse-AllDigit [] h = tt
reverse-AllDigit (c ∷ cs) h =
    rw (reverse-append (c ∷ []) cs)
      (AllDigit-append (reverse cs) (c ∷ []) (reverse-AllDigit cs h.1) (h.0, tt))

strip_none : (cs : List ℕ) → AllDigit cs → strip cs ≡ cs
unfolding strip
strip_none cs h =
    rw (drop_spaces_none cs h)
      (rw (drop_spaces_none (reverse cs) (reverse-AllDigit cs h)) (reverse-reverse cs))

signed-digits :
    (cs : List ℕ) (n : ℕ) → AllDigit cs → digits cs 0 false ≡ some n → signed cs ≡ some (pos n)
unfolding signed is_digit digits
signed-digits [] n h e = absurd (ground arith)
signed-digits (c ∷ cs) n h e = ground arith

-- `int(str(n))` is n.
pub parse_int-show_nat : (n : ℕ) → parse_int (show_nat n) ≡ some (pos n)
unfolding parse_int show_nat
parse_int-show_nat n =
    let all = digits_show-AllDigit (suc n) n String.[] tt in
    rw (strip_none _ all)
      (signed-digits _ n all (digits-show (suc n) n String.[] false (omega arith)))

digits_plain : (s : String) → AllDigit (codes s) → starts_with s "-" ≡ false
unfolding codes is_digit starts_with
digits_plain String.[] h = refl
digits_plain (glue c s) h = ground arith

-- A number that is not negative begins with no dash.
pub show_nat_plain : (n : ℕ) → starts_with (show_nat n) "-" ≡ false
unfolding show_nat codes
show_nat_plain n = digits_plain (show_nat n) (digits_show-AllDigit (suc n) n String.[] tt)

-- Two numbers are not written alike.
pub show_nat_injective : (m n : ℕ) → show_nat m ≡ show_nat n → m ≡ n
show_nat_injective m n h =
    let same : some (pos m) ≡ some (pos n) =
      sym (parse_int-show_nat m) ∙ ap parse_int h ∙ parse_int-show_nat n in
    cc
