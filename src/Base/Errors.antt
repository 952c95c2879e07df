-- ===== src/Base/Errors.antt =====
-- errors.py, and the other exceptions that the modelled code raises. A message is the list of
-- the pieces that the f-string joins.
use Prim.Native.String.{String, ◌++◌ as ◌<>◌}
use mathlib.Core.Path.{◌≡◌, refl}
use mathlib.Core.Logic.{◌≢◌, ◌↔◌}
use mathlib.Core.Bool.{Bool, true, false}
use mathlib.Core.List.{List, [], ◌∷◌}

abbrev pub Message : Type 0
Message = List String

-- `recursion` is Python's RecursionError: a model's fuel ran out.
pub data Error : Type 0 where
  railwarden configuration git validation provider : Message → Error
  value_error runtime_error key_error os_error type_error : Message → Error
  recursion : Error

-- `except (GitError, RuntimeError)`: the errors of errors.py are RuntimeErrors.
abbrev pub is_runtime_error : Error → Bool
is_runtime_error (railwarden _) = true
is_runtime_error (configuration _) = true
is_runtime_error (git _) = true
is_runtime_error (validation _) = true
is_runtime_error (provider _) = true
is_runtime_error (value_error _) = false
is_runtime_error (runtime_error _) = true
is_runtime_error (key_error _) = false
is_runtime_error (os_error _) = false
is_runtime_error (type_error _) = false
is_runtime_error recursion = true

pub data Result {ℓ} (A : Type ℓ) : Type ℓ where
  ok : A → Result A
  err : Error → Result A

infixl 5 ◌>>=◌ ◌>>◌
abbrev pub ◌>>=◌ {ℓ κ} : {B : Type ℓ} {C : Type κ} → Result B → (B → Result C) → Result C
err raised >>= next = err raised
ok value >>= next = next value

-- `if test: raise e`
abbrev pub raise_if : Bool → Error → Result (Unit {0})
raise_if true raised = err raised
raise_if false raised = ok tt

abbrev pub ◌>>◌ {ℓ} : {B : Type ℓ} → Result (Unit {0}) → Result B → Result B
first >> second = first >>= λ _. second

-- What returned was returned by both parts.
pub bind-eq-ok {ℓ κ} :
    {B : Type ℓ} {C : Type κ} (first : Result B) (next : B → Result C) {result : C}
    → (first >>= next) ≡ ok result
    → (value : B) × (first ≡ ok value) × (next value ≡ ok result)
bind-eq-ok (err raised) next h = cc
bind-eq-ok (ok value) next h = (value, refl, h)

-- Two steps return exactly if both do.
pub seq-eq-ok : (m k : Result (Unit {0})) → ((m >> k) ≡ ok tt) ↔ ((m ≡ ok tt) × (k ≡ ok tt))
seq-eq-ok (ok _) k = (λ e. (refl, e), λ e. e.1)
seq-eq-ok (err raised) k = (λ e. absurd (cc), λ e. let e' = e.0 in absurd (cc))

pub ok-ne-err {ℓ} : {A : Type ℓ} (a : A) (e : Error) → ok a ≢ err e
ok-ne-err a e h = cc

-- A chain of steps that have fuel enough has fuel enough.
pub bind-ne-recursion {ℓ κ} :
    {A : Type ℓ} {B : Type κ} (m : Result A) (f : A → Result B)
    → m ≢ err recursion
    → ((a : A) → f a ≢ err recursion)
    → (m >>= f) ≢ err recursion
bind-ne-recursion (ok a) f hm hf h = hf a h
bind-ne-recursion (err e) f hm hf h = hm (cc)

-- `str(exc)`
pub join : Message → String
join [] = ""
join (piece ∷ pieces) = piece <> join pieces
