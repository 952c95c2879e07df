-- ===== src/Base/Exec.antt =====
-- Statements that change a state and may raise. The state outlives the exception.
use railwarden.Base.Errors.{Result, ok, err, Error}
use mathlib.Core.Path.{◌≡◌, refl}
use mathlib.Core.Bool.{Bool, true, false}

abbrev pub Exec : Type 0 → Type 0 → Type 0
Exec S A = S → Result A × S

module _ {S : Type 0} where
  abbrev pub pure : {A : Type 0} → A → Exec S A
  pure a s = (ok a, s)

  abbrev pub throw : {A : Type 0} → Error → Exec S A
  throw e s = (err e, s)

  abbrev pub and_then : {A B : Type 0} → Result A → (A → Exec S B) → Exec S B
  and_then (ok a) f = f a
  and_then (err e) f = throw e

  infixl 5 ◌>>=◌ ◌>>◌
  abbrev pub ◌>>=◌ : {A B : Type 0} → Exec S A → (A → Exec S B) → Exec S B
  ◌>>=◌ m f s = let (result, t) = m s in and_then result f t

  abbrev pub ◌>>◌ : {A B : Type 0} → Exec S A → Exec S B → Exec S B
  m >> n = m >>= λ _. n

  -- A computation that reads the state.
  abbrev pub gets : {A : Type 0} → (S → Result A) → Exec S A
  gets f s = (f s, s)

  abbrev pub modify : (S → S) → Exec S (Unit {0})
  modify f s = (ok tt, f s)

  -- `if test: raise e`
  abbrev pub refuse : Bool → Error → Exec S (Unit {0})
  refuse true e = throw e
  refuse false e = pure tt

module _ {S A B : Type 0} where
  -- What returned was returned by both parts, the second in the state that the first left.
  pub run-eq-ok :
      (m : Exec S A) (f : A → Exec S B) (s t : S) (b : B)
      → (m >>= f) s ≡ (ok b, t)
      → (a : A) × (u : S) × (m s ≡ (ok a, u)) × (f a u ≡ (ok b, t))
  run-eq-ok m f s t b e = split (m s) refl e
    where
      split :
          (r : Result A × S)
          → m s ≡ r
          → and_then r.0 f r.1 ≡ (ok b, t)
          → (a : A) × (u : S) × (m s ≡ (ok a, u)) × (f a u ≡ (ok b, t))
      split (ok a, u) first rest = (a, u, first, rest)
      split (err _, u) first rest = cc

module _ {S A : Type 0} where
  -- What was read was read in the state, which stays.
  pub gets-eq-ok :
      (f : S → Result A) (s t : S) (a : A) → gets f s ≡ (ok a, t) → (f s ≡ ok a) × (s ≡ t)
  gets-eq-ok f s t a h = (cc, cc)

-- A test that did not raise was false, and the state stays.
pub refuse-eq-ok :
    {S : Type 0} (b : Bool) (e : Error) (s t : S) (u : Unit {0})
    → refuse b e s ≡ (ok u, t)
    → (b ≡ false) × (s ≡ t)
refuse-eq-ok true e s t u h = cc
refuse-eq-ok false e s t u h = (refl, cc)

-- What `pure` returned is its argument, and the state stays.
pub pure-eq-ok : {S A : Type 0} (a b : A) (s t : S) → pure a s ≡ (ok b, t) → (a ≡ b) × (s ≡ t)
pure-eq-ok a b s t h = (cc, cc)
