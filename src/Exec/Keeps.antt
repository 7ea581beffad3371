-- ===== src/Exec/Keeps.antt =====
-- Invariants of code that may raise: one rule for each way to build it. An invariant holds after
-- a raise too.
use hv2pve.Prelude.{◌≡◌, refl, Bool, true, false}
use hv2pve.Exec.{
  Error, Result, ok, err, Exec, Done, pure, raise, lift, gets, raise_if, require, unless, continue,
  ◌>>=◌, ◌>>◌, replaced, finally, ignoring_errors,
}

pub record Keeps {S A : Type 0} (P : S → Type 0) (m : Exec S A) : Type 0 where
  pub at : (s : S) → P s → P (m s).1

module _ {S A : Type 0} {P : S → Type 0} where
  pub Keeps-gets : (look : S → A) → Keeps P (gets look)
  Keeps-gets look = record { at = λ w kept. kept }

  pub Keeps-raise : (error : Error) → Keeps P (raise {A = A} error)
  Keeps-raise error = record { at = λ w kept. kept }

  pub Keeps-lift : (r : Result A) → Keeps P (lift r)
  Keeps-lift r = record { at = λ w kept. kept }

  pub Keeps-pure : (value : A) → Keeps P (pure value)
  Keeps-pure value = record { at = λ w kept. kept }

module _ {S : Type 0} {P : S → Type 0} where
  pub Keeps-raise_if : (b : Bool) (e : Error) → Keeps P (raise_if b e)
  Keeps-raise_if true e = record { at = λ s h. h }
  Keeps-raise_if false e = record { at = λ s h. h }

  pub Keeps-require : (b : Bool) (e : Error) → Keeps P (require b e)
  Keeps-require true e = record { at = λ s h. h }
  Keeps-require false e = record { at = λ s h. h }

  pub Keeps-unless : (b : Bool) (m : Exec S Done) → Keeps P m → Keeps P (unless b m)
  Keeps-unless true m k = record { at = λ s h. h }
  Keeps-unless false m k = k

module _ {S A B : Type 0} {P : S → Type 0} where
  pub Keeps-bind :
      (first : Exec S A) (rest : A → Exec S B)
      → Keeps P first
      → ((value : A) → Keeps P (rest value))
      → Keeps P (first >>= rest)
  unfolding ◌>>=◌
  Keeps-bind first rest first_keeps rest_keeps = record {
    at = λ w kept. go (first w).0 (first w).1 (first_keeps.at w kept);
  }
    where
      go : (r : Result A) (t : S) → P t → P (continue r rest t).1
      go (ok a) t h = (rest_keeps a).at t h
      go (err e) t h = h

-- Behind a value that is computed without a state, the rest knows where it came from.
pub Keeps-lift_bind :
    {S A B : Type 0} {P : S → Type 0} (r : Result A) (rest : A → Exec S B)
    → ((value : A) → r ≡ ok value → Keeps P (rest value))
    → Keeps P (lift r >>= rest)
unfolding ◌>>=◌
Keeps-lift_bind (ok a) rest k = record { at = λ s h. (k a refl).at s h }
Keeps-lift_bind (err e) rest k = record { at = λ s h. h }

-- Behind a test that may raise, the rest knows that it passed.
pub Keeps-raise_if_bind :
    {S B : Type 0} {P : S → Type 0} (c : Bool) (e : Error) (rest : Exec S B)
    → (c ≡ false → Keeps P rest)
    → Keeps P (raise_if c e >> rest)
unfolding ◌>>=◌
Keeps-raise_if_bind true e rest k = record { at = λ s h. h }
Keeps-raise_if_bind false e rest k = record { at = λ s h. (k refl).at s h }

module _ {S A : Type 0} {P : S → Type 0} where
  pub Keeps-finally :
      (m : Exec S A) (cleanup : Exec S Done)
      → Keeps P m
      → Keeps P cleanup
      → Keeps P (finally m cleanup)
  Keeps-finally m cleanup km kc = record {
    at = λ s h. go (m s).0 (cleanup (m s).1).0 (cleanup (m s).1).1 (kc.at (m s).1 (km.at s h));
  }
    where
      go : (r : Result A) (c : Result Done) (t : S) → P t → P (replaced r (c, t)).1
      go r (ok u) t h = h
      go r (err e) t h = h

  pub Keeps-ignoring_errors : (m : Exec S A) → Keeps P m → Keeps P (ignoring_errors m)
  Keeps-ignoring_errors m k = record { at = λ s h. k.at s h }

pub ruleset keeps_rules = (
  Keeps-bind, Keeps-finally, Keeps-ignoring_errors, Keeps-unless, Keeps-require, Keeps-raise_if,
  Keeps-gets, Keeps-lift, Keeps-raise, Keeps-pure,
)
