-- ===== src/Base/Lists.antt =====
-- Lists of texts as Python uses them: membership, sets and dicts in insertion order.
use Prim.Native.Nat.{ℕ, suc, ◌+◌, ◌≤◌}
use Prim.Native.String.{String}
use mathlib.Core.Path.{◌≡◌, refl, sym, ap}
use mathlib.Core.Logic.{◌⊎◌, ◌≢◌}
use mathlib.Core.Bool.{Bool, true, false, ◌||◌}
use mathlib.Core.List.{List, [], ◌∷◌, ◌++◌}
use native.Mathlib.Omega.{arith}
use text.Mathlib.Text.{◌==◌}
use text.Mathlib.TextEquality.{eq_iff}
use text.Mathlib.TextPositions.{eq_refl}
use railwarden.Base.Tests.{if◌then◌else◌}

module _ {ℓ} {A : Type ℓ} where
  abbrev pub length : List A → ℕ
  length [] = 0
  length (x ∷ xs) = suc (length xs)

  pub length-append : (xs ys : List A) → length (xs ++ ys) ≡ length xs + length ys
  length-append [] ys = omega arith
  length-append (x ∷ xs) ys = omega (arith, length-append xs ys)

-- `a in xs`
unfoldable pub contains : List String → String → Bool
contains [] a = false
contains (x ∷ xs) a = a == x || contains xs a

pub contains-nil : (a : String) → contains [] a ≡ false
unfolding contains
contains-nil a = refl

pub contains-append :
    (xs ys : List String) (a : String) → contains (xs ++ ys) a ≡ (contains xs a || contains ys a)
unfolding contains
contains-append [] ys a = refl
contains-append (x ∷ xs) ys a = ground (arith, contains-append xs ys a)

pub contains_head : (a : String) (xs : List String) → contains (a ∷ xs) a ≡ true
unfolding contains
contains_head a xs = ground (arith, eq_refl a)

pub contains_tail :
    (a x : String) (xs : List String) → contains xs a ≡ true → contains (x ∷ xs) a ≡ true
unfolding contains
contains_tail a x xs h = ground arith

pub contains_cases :
    (a x : String) (xs : List String)
    → contains (x ∷ xs) a ≡ true
    → (a ≡ x) ⊎ (contains xs a ≡ true)
unfolding contains
contains_cases a x xs h = ground (arith, eq_iff a x)

pub contains_absent :
    (a x : String) (xs : List String) → a ≢ x → contains xs a ≡ false → contains (x ∷ xs) a ≡ false
unfolding contains
contains_absent a x xs ne h = ground (arith, eq_iff a x)

pub not_member : (a : String) → contains [] a ≢ true
unfolding contains
not_member a h = cc

-- A member differs from what is no member.
pub member_ne :
    (a b : String) (xs : List String) → contains xs a ≡ true → contains xs b ≡ false → a ≢ b
member_ne a b xs h n e = cc (ap (contains xs) e)

bool_ext : (b c : Bool) → (b ≡ true → c ≡ true) → (c ≡ true → b ≡ true) → b ≡ c
bool_ext true c f g = sym (f refl)
bool_ext false true f g = g refl
bool_ext false false f g = refl

-- All of the first list's members are members of the second.
abbrev pub Within : List String → List String → Type 0
Within xs ys = (a : String) → contains xs a ≡ true → contains ys a ≡ true

pub same_members :
    (xs ys : List String)
    → Within xs ys
    → Within ys xs
    → (a : String) → contains xs a ≡ contains ys a
same_members xs ys f g a = bool_ext (contains xs a) (contains ys a) (f a) (g a)

-- No text is listed twice.
abbrev pub Nodup : List String → Type 0
Nodup [] = Unit
Nodup (x ∷ xs) = (contains xs x ≡ false) × Nodup xs

remove : String → List String → List String
remove a [] = []
remove a (x ∷ xs) = if a == x then xs else x ∷ remove a xs

length-remove :
    (a : String) (xs : List String) → contains xs a ≡ true → suc (length (remove a xs)) ≡ length xs
unfolding contains remove
length-remove a [] h = cc
length-remove a (x ∷ xs) h = ground (arith, length-remove a xs)

contains-remove :
    (a b : String) (xs : List String)
    → b ≢ a
    → contains xs b ≡ true
    → contains (remove a xs) b ≡ true
unfolding contains remove
contains-remove a b [] ne h = cc
contains-remove a b (x ∷ xs) ne h = ground (arith, contains-remove a b xs, eq_iff a x, eq_iff b x)

-- A list with no repetition is no longer than a list that holds all of its members.
pub Nodup-length-le : (xs ys : List String) → Nodup xs → Within xs ys → length xs ≤ length ys
Nodup-length-le [] ys _ _ = omega arith
Nodup-length-le (x ∷ xs) ys (fresh, u) w = omega (
  arith,
  length-remove x ys (w x (contains_head x xs)),
  Nodup-length-le xs (remove x ys) u λ a h.
      contains-remove x a ys (λ e. cc (h, fresh, ap (contains xs) e))
        (w a (contains_tail a x xs h)),
)

abbrev pub All {ℓ κ} : {A : Type ℓ} → (A → Type κ) → List A → Type κ
All P [] = Unit
All P (x ∷ xs) = P x × All P xs

abbrev pub IsIn : {A : Type 0} → A → List A → Type 0
IsIn a [] = ⊥
IsIn a (x ∷ xs) = (a ≡ x) ⊎ IsIn a xs
