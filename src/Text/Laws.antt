-- ===== src/Text/Laws.antt =====
use hv2pve.Prelude.{
  ℕ, String, ◌≡◌, refl, ap, ◌∙◌, inl, inr, true, false, List, [], ◌∷◌, ◌==◌, Bool-cases,
}
use hv2pve.Text.{glue, cat, add_first, split, join}
-- Texts that are split at a separator and joined again.
use Prim.Native.Char.{Char, code}

-- No character of a text is the separator.
abbrev pub IsWhole : ℕ → String → Type 0
IsWhole sep String.[] = Unit
IsWhole sep (glue c s) = ((code c == sep) ≡ false) × IsWhole sep s

abbrev pub AllWhole : ℕ → List String → Type 0
AllWhole sep [] = Unit
AllWhole sep (p ∷ ps) = IsWhole sep p × AllWhole sep ps

split_whole : (sep : ℕ) (p : String) → IsWhole sep p → split sep p ≡ p ∷ []
unfolding split add_first
split_whole sep String.[] h = refl
split_whole sep (glue c p) h = rw (h.0) (rw (split_whole sep p h.1) refl)

split-cat :
    (sep : ℕ) (d : Char) (p s : String)
    → (code d == sep) ≡ true
    → IsWhole sep p
    → split sep (cat p (glue d s)) ≡ p ∷ split sep s
unfolding split cat add_first
split-cat sep d String.[] s e h = rw e refl
split-cat sep d (glue c p) s e h = rw (h.0) (rw (split-cat sep d p s e h.1) refl)

add_first-AllWhole :
    (sep : ℕ) (c : Char) (ps : List String)
    → (code c == sep) ≡ false
    → AllWhole sep ps
    → AllWhole sep (add_first c ps)
unfolding add_first
add_first-AllWhole sep c [] e h = ((e, tt), tt)
add_first-AllWhole sep c (p ∷ ps) e h = ((e, h.0), h.1)

pub split-AllWhole : (sep : ℕ) (s : String) → AllWhole sep (split sep s)
unfolding split add_first
split-AllWhole sep String.[] = (tt, tt)
split-AllWhole sep (glue c s) = elim (Bool-cases (code c == sep)) [
  | inl e ↦ rw e (tt, split-AllWhole sep s)
  | inr e ↦ rw e (add_first-AllWhole sep c (split sep s) e (split-AllWhole sep s))
]

-- Parts without a comma, joined by commas, are the parts of the result.
pub split-join :
    (p : String) (ps : List String)
    → AllWhole b',' (p ∷ ps)
    → split b',' (join "," (p ∷ ps)) ≡ p ∷ ps
unfolding join
split-join p [] h = split_whole b',' p h.0
split-join p (q ∷ ps) h =
    let ih = split-join q ps h.1 in
    split-cat b',' _ p (join "," (q ∷ ps)) refl h.0 ∙ ap (λ r. p ∷ r) ih
