-- ===== src/Exec/Laws.antt =====
use hv2pve.Prelude.{
  ◌≡◌, refl, ap, ◌⊎◌, inl, inr, Bool, true, false, List, ◌∷◌, arith, if◌then◌else◌,
}
use hv2pve.Exec.{Error, Result, ok, err, and_then, Exec, raise_if, require, continue, ◌>>=◌, ◌>>◌}
use mathlib.Core.Path.{subst}

-- What it takes for a computation to return.

pub bind-ok :
    {S A B : Type 0} (m : Exec S A) (f : A → Exec S B) (s : S) (b : B)
    → ((m >>= f) s).0 ≡ ok b
    → (a : A) × ((m s).0 ≡ ok a) × ((f a (m s).1).0 ≡ ok b)
unfolding ◌>>=◌
bind-ok {S} {A} {B} m f s b = go (m s).0
  where
    go :
        (r : Result A)
        → (continue r f (m s).1).0 ≡ ok b
        → (a : A) × (r ≡ ok a) × ((f a (m s).1).0 ≡ ok b)
    go (ok a) h = (a, refl, h)
    go (err e) h = absurd (ground arith)

-- The same with what the state is afterwards.
pub bind-returns :
    {S A B : Type 0} (m : Exec S A) (f : A → Exec S B) (s t : S) (b : B)
    → (m >>= f) s ≡ (ok b, t)
    → (a : A) × (u : S) × (m s ≡ (ok a, u)) × (f a u ≡ (ok b, t))
unfolding ◌>>=◌
bind-returns {S} {A} {B} m f s t b = go (m s)
  where
    go :
        (r : Result A × S)
        → continue r.0 f r.1 ≡ (ok b, t)
        → (a : A) × (u : S) × (r ≡ (ok a, u)) × (f a u ≡ (ok b, t))
    go (ok a, u) h = (a, u, refl, h)
    go (err e, u) h = let raised = ap (λ x. x.0) h in absurd (ground arith)

pub Result-cases :
    {A : Type 0} (r : Result A) → ((a : A) × (r ≡ ok a)) ⊎ ((e : Error) × (r ≡ err e))
Result-cases (ok a) = inl (a, refl)
Result-cases (err e) = inr (e, refl)

pub ok_inj : {A : Type 0} (a b : A) → ok a ≡ ok b → a ≡ b
ok_inj a b h = cc

-- What a bind goes on with, once its first part has returned.
pub bind_next :
    {S A B : Type 0} (m : Exec S A) (f : A → Exec S B) (s t : S) (a : A)
    → m s ≡ (ok a, t)
    → (m >>= f) s ≡ f a t
unfolding ◌>>=◌
bind_next m f s t a e = rw e refl

pub bind_raised :
    {S A B : Type 0} (m : Exec S A) (f : A → Exec S B) (s t : S) (e : Error)
    → m s ≡ (err e, t)
    → (m >>= f) s ≡ (err e, t)
unfolding ◌>>=◌
bind_raised m f s t e h = rw h refl

pub require-ok : {S : Type 0} (c : Bool) (e : Error) (s : S) → (require c e s).0 ≡ ok tt → c ≡ true
require-ok true e s h = refl
require-ok false e s h = absurd (ground arith)

pub raise_if-ok :
    {S : Type 0} (c : Bool) (e : Error) (s : S) → (raise_if c e s).0 ≡ ok tt → c ≡ false
raise_if-ok true e s h = absurd (ground arith)
raise_if-ok false e s h = refl

-- A guard that a computation has passed.
pub raise_if-returns :
    {S B : Type 0} (c : Bool) (e : Error) (k : Exec S B) (s t : S) (b : B)
    → (raise_if c e >> k) s ≡ (ok b, t)
    → (c ≡ false) × (k s ≡ (ok b, t))
unfolding ◌>>=◌
raise_if-returns true e k s t b h = let raised = ap (λ x. x.0) h in absurd (ground arith)
raise_if-returns false e k s t b h = (refl, h)

pub require-returns :
    {S B : Type 0} (c : Bool) (e : Error) (k : Exec S B) (s t : S) (b : B)
    → (require c e >> k) s ≡ (ok b, t)
    → (c ≡ true) × (k s ≡ (ok b, t))
unfolding ◌>>=◌
require-returns true e k s t b h = (refl, h)
require-returns false e k s t b h = let raised = ap (λ x. x.0) h in absurd (ground arith)

pub and_then-ok :
    {A B : Type 0} (r : Result A) (f : A → Result B) (b : B)
    → and_then r f ≡ ok b
    → (a : A) × (r ≡ ok a) × (f a ≡ ok b)
and_then-ok (ok a) f b h = (a, refl, h)
and_then-ok (err e) f b h = absurd (ground arith)

pub unless_raised :
    {B : Type 0} (c : Bool) (e : Error) (r : Result B) (b : B)
    → (if c then err e else r) ≡ ok b
    → (c ≡ false) × (r ≡ ok b)
unless_raised true e r b h = absurd (ground arith)
unless_raised false e r b h = (refl, h)

pub same_parts :
    {A : Type 0} (x y : A) (xs ys : List A) → ok (x ∷ xs) ≡ ok (y ∷ ys) → (x ≡ y) × (xs ≡ ys)
same_parts x y xs ys h = (cc, cc)

-- What is returned, if anything is, has a property.
pub record Returns {A : Type 0} (P : A → Type 0) (r : Result A) : Type 0 where
  pub at : (a : A) → r ≡ ok a → P a

pub Returns-ok : {A : Type 0} {P : A → Type 0} (a : A) → P a → Returns P (ok a)
Returns-ok {A} {P} a h = record { at = λ b e. let same : a ≡ b = cc in subst P same h }

pub Returns-and_then :
    {A B : Type 0} {P : B → Type 0} (r : Result A) (f : A → Result B)
    → ((a : A) → Returns P (f a))
    → Returns P (and_then r f)
Returns-and_then (ok a) f k = k a
Returns-and_then (err e) f k = record { at = λ b h. absurd (ground arith) }
