-- ===== src/Base/Dicts.antt =====
-- Dicts with text keys, in insertion order, and `sorted`.
use Prim.Native.Nat.{suc, Ordering}
use Prim.Native.String.{String, compare}
use mathlib.Core.Path.{◌≡◌, refl, sym, ap, ◌∙◌}
use mathlib.Core.Logic.{inl, inr}
use mathlib.Core.Bool.{Bool, true, false, ◌||◌}
use mathlib.Core.Option.{Option, none, some}
use mathlib.Core.List.{List, [], ◌∷◌}
use native.Mathlib.Omega.{arith}
use text.Mathlib.Text.{◌==◌}
use text.Mathlib.TextEquality.{eq_iff}
use text.Mathlib.TextPositions.{eq_refl}
use railwarden.Base.Tests.{if◌then◌else◌, Bool-cases, text_ne}
use railwarden.Base.Lists.{contains, length, Nodup, member_ne, All}

abbrev pub Dict {ℓ} : Type ℓ → Type ℓ
Dict V = List (String × V)

module _ {ℓ} {V : Type ℓ} where
  -- `d.get(k)`
  unfoldable pub lookup : String → Dict V → Option V
  lookup k [] = none
  lookup k ((j, v) ∷ d) = if j == k then some v else lookup k d

  -- `d[k] = v`
  unfoldable pub insert : String → V → Dict V → Dict V
  insert k v [] = (k, v) ∷ []
  insert k v ((j, w) ∷ d) = if j == k then (j, v) ∷ d else (j, w) ∷ insert k v d

  unfoldable pub keys : Dict V → List String
  keys [] = []
  keys ((k, _) ∷ d) = k ∷ keys d

  abbrev pub NodupKeys : Dict V → Type 0
  NodupKeys d = Nodup (keys d)

  pub lookup-insert :
      (k j : String) (v : V) (d : Dict V)
      → lookup j (insert k v d) ≡ (if k == j then some v else lookup j d)
  unfolding lookup insert
  lookup-insert k j v [] = refl
  lookup-insert k j v ((i, w) ∷ d) =
      ground (arith, eq_iff k j, eq_iff i k, eq_iff i j, lookup-insert k j v d)

  -- The keys are those that have a value.
  pub lookup-keys :
      (d : Dict V) (k : String) → contains (keys d) k ≡ true → (v : V) × (lookup k d ≡ some v)
  unfolding lookup keys contains
  lookup-keys [] k h = cc
  lookup-keys ((j, v) ∷ d) k h = elim (Bool-cases (j == k)) [
    | inl same ↦ (v, rw same)
    | inr differ ↦
        let (w, e) = lookup-keys d k (ground (arith, eq_iff j k, eq_iff k j)) in (w, rw differ e)
  ]

  pub keys-lookup :
      (d : Dict V) (k : String) (v : V) → lookup k d ≡ some v → contains (keys d) k ≡ true
  unfolding lookup keys contains
  keys-lookup [] k v h = cc
  keys-lookup ((j, w) ∷ d) k v h = ground (arith, keys-lookup d k v, eq_iff j k, eq_iff k j)

module _ {ℓ} {V : Type ℓ} where
  pub lookup_first : (k : String) (v : V) (d : Dict V) → lookup k ((k, v) ∷ d) ≡ some v
  unfolding lookup
  lookup_first k v d = rw eq_refl

  pub lookup_later :
      (j k : String) (v w : V) (d : Dict V)
      → NodupKeys ((k, v) ∷ d)
      → lookup j d ≡ some w
      → lookup j ((k, v) ∷ d) ≡ some w
  unfolding lookup keys
  lookup_later j k v w d (fresh, _) h =
      rw (text_ne k j (λ e. member_ne j k (keys d) (keys-lookup d j w h) fresh (sym e))) h

  pub NodupKeys-tail : (k : String) (v : V) (d : Dict V) → NodupKeys ((k, v) ∷ d) → NodupKeys d
  unfolding keys
  NodupKeys-tail k v d (_, u) = u

  pub length-keys : (d : Dict V) → length (keys d) ≡ length d
  unfolding keys
  length-keys [] = refl
  length-keys (_ ∷ d) = ap suc (length-keys d)

module _ {ℓ} {A : Type ℓ} (le : A → A → Bool) where
  -- Stable: an item goes in front of those that are not smaller.
  unfoldable pub place : A → List A → List A
  place x [] = x ∷ []
  place x (y ∷ ys) = if le x y then x ∷ y ∷ ys else y ∷ place x ys

  -- `sorted(xs, key=...)`, the keys compared by `le`.
  unfoldable pub sorted_by : List A → List A
  unfolding place
  sorted_by [] = []
  sorted_by (x ∷ xs) = place x (sorted_by xs)

-- `a <= b` on texts
abbrev pub text_le : String → String → Bool
text_le a b = elim (compare a b) [ Ordering.gt ↦ false | _ ↦ true ]

-- `sorted(xs)`
unfoldable pub sorted : List String → List String
unfolding sorted_by
sorted xs = sorted_by text_le xs

contains-place :
    (x : String) (ys : List String) (a : String)
    → contains (place text_le x ys) a ≡ (a == x || contains ys a)
unfolding place contains
contains-place x [] a = refl
contains-place x (y ∷ ys) a = ground (arith, contains-place x ys a)

pub contains-sorted : (xs : List String) (a : String) → contains (sorted xs) a ≡ contains xs a
unfolding sorted contains
contains-sorted [] a = refl
contains-sorted (x ∷ xs) a =
    contains-place x (sorted_by text_le xs) a ∙ ap (λ b. a == x || b) (contains-sorted xs a)

All-place :
    {A : Type 0} (P : A → Type 0) (le : A → A → Bool) (x : A) (ys : List A)
    → P x
    → All P ys
    → All P (place le x ys)
unfolding place
All-place P le x [] p _ = (p, tt)
All-place P le x (y ∷ ys) p (q, qs) = elim (Bool-cases (le x y)) [
  | inl first ↦ rw first (p, (q, qs))
  | inr later ↦ rw later (q, All-place P le x ys p qs)
]

pub All-sorted_by :
    {A : Type 0} (P : A → Type 0) (le : A → A → Bool) (xs : List A)
    → All P xs
    → All P (sorted_by le xs)
unfolding sorted_by
All-sorted_by P le [] all = tt
All-sorted_by P le (x ∷ xs) (p, ps) =
    All-place P le x (sorted_by le xs) p (All-sorted_by P le xs ps)
