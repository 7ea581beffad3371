-- ===== src/Seed/Choice.antt =====
-- controller/seed.py: the file that `resolve_exported_disks` takes for one disk.
use hv2pve.Seed.{is_used, unused_where, by_stem, fallback, choose, base_name, chosen_path}
use hv2pve.Prelude.{
  String, ◌≡◌, refl, ap, inl, inr, Bool, true, false, List, [], ◌∷◌, arith, eq_iff, str_eq,
  Bool-cases,
}
use hv2pve.Exec.{ok}
use hv2pve.Text.{starts_with, lower}
use hv2pve.Text.Path.{name, stem}
use hv2pve.Exec.Laws.{ok_inj}
use mathlib.Core.Path.{subst}

-- A file that is left over is a candidate, and is not used.
abbrev pub IsFree : List String → List String → String → Type 0
IsFree candidates used p = (is_used p candidates ≡ true) × (is_used p used ≡ false)

-- A file that is left over and passes a test, and every such file is this one.
pub record IsOnly (candidates used : List String) (test : String → Bool) (p : String) : Type 0 where
  pub free : IsFree candidates used p
  pub passes : test p ≡ true
  pub only : (q : String) → IsFree candidates used q → test q ≡ true → q ≡ p

-- No file that is left over passes a test.
abbrev pub NoneIs : List String → List String → (String → Bool) → Type 0
NoneIs candidates used test = (q : String) → IsFree candidates used q → test q ≡ false

-- The name of a file is that of the disk's path; its stem begins with the stem of that path.
abbrev pub has_name : String → String → Bool
has_name source_name q = str_eq (lower (name q)) source_name

abbrev pub has_stem : String → String → Bool
has_stem source_name q = starts_with (lower (stem (name q))) (lower (stem source_name))

-- The file is the only one left over with the disk's name; or no file has that name, and it is the
-- only one left over for the only disk, or the only one left over with the disk's stem.
pub data Matches (single : Bool) (candidates used : List String) (source_name p : String)
    : Type 0 where
  of_name :
      IsOnly candidates used (has_name source_name) p → Matches single candidates used source_name p
  alone :
      NoneIs candidates used (has_name source_name)
      → single ≡ true
      → IsOnly candidates used (λ q. true) p
      → Matches single candidates used source_name p
  of_stem :
      NoneIs candidates used (has_name source_name)
      → IsOnly candidates used (has_stem source_name) p
      → Matches single candidates used source_name p

-- What is in the list of the files that are left over and pass a test.
unused-passes :
    (f : String → Bool) (used candidates : List String) (p : String)
    → is_used p (unused_where f used candidates) ≡ true
    → IsFree candidates used p × (f p ≡ true)
unfolding unused_where is_used
unused-passes f used [] p h = absurd (ground arith)
unused-passes f used (q ∷ qs) p h = ground (arith, eq_iff p q, ap f, unused-passes f used qs p)

passes-unused :
    (f : String → Bool) (used candidates : List String) (p : String)
    → IsFree candidates used p
    → f p ≡ true
    → is_used p (unused_where f used candidates) ≡ true
unfolding unused_where is_used
passes-unused f used [] p h k = absurd (ground arith)
passes-unused f used (q ∷ qs) p h k = ground (arith, eq_iff p q, passes-unused f used qs p)

is_used_one : (q p : String) → is_used q (p ∷ []) ≡ true → q ≡ p
unfolding is_used
is_used_one q p h = ground (arith, eq_iff q p)

is_used_first : (p : String) (ps : List String) → is_used p (p ∷ ps) ≡ true
unfolding is_used
is_used_first p ps = ground (arith, eq_iff p p)

not_true : (b : Bool) → (b ≡ true → ⊥) → b ≡ false
not_true true h = absurd (h refl)
not_true false h = refl

one-IsOnly :
    (f : String → Bool) (used candidates : List String) (p : String)
    → unused_where f used candidates ≡ p ∷ []
    → IsOnly candidates used f p
one-IsOnly f used candidates p e =
    let found = unused-passes f used candidates p (rw e (is_used_first p [])) in
    record {
      free = found.0;
      passes = found.1;
      only = λ q free passes.
          is_used_one q p
            (subst (λ xs. is_used q xs ≡ true) e (passes-unused f used candidates q free passes));
    }

none-NoneIs :
    (f : String → Bool) (used candidates : List String)
    → unused_where f used candidates ≡ []
    → NoneIs candidates used f
none-NoneIs f used candidates e q free = not_true (f q) λ passes.
    let there =
      subst (λ xs. is_used q xs ≡ true) e (passes-unused f used candidates q free passes) in
    absurd (unfold is_used in ground (arith, there))

-- What is left over of what is left over.
again-IsOnly :
    (f : String → Bool) (used candidates : List String) (p : String)
    → IsOnly (unused_where (λ q. true) used candidates) used f p
    → IsOnly candidates used f p
again-IsOnly f used candidates p o = record {
  free = (unused-passes (λ q. true) used candidates p o.free.0).0;
  passes = o.passes;
  only = λ q free passes.
      o.only q (passes-unused (λ r. true) used candidates q free refl, free.1) passes;
}

by_stem-IsOnly :
    (f : String → Bool) (used candidates : List String) (p : String)
    → by_stem (unused_where f used candidates) ≡ ok p
    → IsOnly candidates used f p
by_stem-IsOnly f used candidates p h = go (unused_where f used candidates) refl h
  where
    go :
        (xs : List String)
        → unused_where f used candidates ≡ xs
        → by_stem xs ≡ ok p
        → IsOnly candidates used f p
    go [] e k = absurd (ground arith)
    go (x ∷ []) e k =
        subst (IsOnly candidates used f) (ok_inj x p k) (one-IsOnly f used candidates x e)
    go (x ∷ y ∷ xs) e k = absurd (ground arith)

module _ (single : Bool) (candidates used : List String) (source_name p : String)
    (nameless : NoneIs candidates used (has_name source_name)) where
  stem-Matches :
      (left : List String)
      → unused_where (λ q. true) used candidates ≡ left
      → by_stem (unused_where (has_stem source_name) used left) ≡ ok p
      → Matches single candidates used source_name p
  stem-Matches left e h = of_stem nameless (
      again-IsOnly (has_stem source_name) used candidates p (
        by_stem-IsOnly (has_stem source_name) used (unused_where (λ q. true) used candidates) p
          (rw e h)))

  fallback-Matches :
      (left : List String)
      → unused_where (λ q. true) used candidates ≡ left
      → fallback single used source_name left ≡ ok p
      → Matches single candidates used source_name p
  fallback-Matches [] e h = stem-Matches [] e h
  fallback-Matches (x ∷ []) e h =
      let at : (b : Bool) → single ≡ b → fallback b used source_name (x ∷ []) ≡ ok p =
        λ b one. subst (λ c. fallback c used source_name (x ∷ []) ≡ ok p) one h in
      elim (Bool-cases single) [
        | inl one ↦ alone nameless one (
            subst (IsOnly candidates used (λ q. true)) (ok_inj x p (at true one))
              (one-IsOnly (λ q. true) used candidates x e))
        | inr more ↦ stem-Matches (x ∷ []) e (at false more)
      ]
  fallback-Matches (x ∷ y ∷ xs) e h = stem-Matches (x ∷ y ∷ xs) e h

pub chosen_path-Matches :
    (single : Bool) (candidates used : List String) (source_path p : String)
    → chosen_path single candidates used source_path ≡ ok p
    → Matches single candidates used (base_name source_path) p
unfolding chosen_path
chosen_path-Matches single candidates used source_path p h =
    go (unused_where (has_name (base_name source_path)) used candidates) refl h
  where
    go :
        (xs : List String)
        → unused_where (has_name (base_name source_path)) used candidates ≡ xs
        → choose xs single candidates used (base_name source_path) ≡ ok p
        → Matches single candidates used (base_name source_path) p
    go [] e k =
        fallback-Matches single candidates used (base_name source_path) p
          (none-NoneIs (has_name (base_name source_path)) used candidates e)
          (unused_where (λ q. true) used candidates) refl k
    go (x ∷ []) e k =
        subst (Matches single candidates used (base_name source_path)) (ok_inj x p k)
          (of_name (one-IsOnly (has_name (base_name source_path)) used candidates x e))
    go (x ∷ y ∷ xs) e k = absurd (ground arith)
