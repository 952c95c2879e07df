-- ===== src/Scheduler/Dag/Loop.antt =====
-- Proof rules for the loops `for dependency in ...: visit(dependency)` of scheduler/dag.py.
use railwarden.Base.{
  String, true, List, [], ◌∷◌, ◌≡◌, refl, ◌≢◌, Result, ok, err, recursion, bind-eq-ok,
  bind-ne-recursion, inl, inr, contains, Within, contains_cases, contains_tail, contains_head,
  subst, sym, not_member,
}
use railwarden.Scheduler.Dag.{each}

module _ (step : String → List String → Result (List String)) where
  -- What every visit keeps and reaches, the loop keeps and reaches for all.
  pub each_reaches {κ} :
      (P : List String → Type κ) (R : List String → List String → Type κ)
      → ((v : List String) → R v v)
      → ((u v w : List String) → R u v → R v w → R u w)
      → ((u v : List String) → R u v → Within u v)
      → ((x : String) (v w : List String)
          → P v
          → step x v ≡ ok w
          → P w × R v w × (contains w x ≡ true))
      → (xs v w : List String) → P v
      → each step xs v ≡ ok w
      → P w × R v w × Within xs w
  unfolding each contains
  each_reaches P R same chain grow one [] v w p e =
      let e' : v ≡ w = cc in (subst P e' p, subst (R v) e' (same v), λ a h. cc)
  each_reaches P R same chain grow one (x ∷ xs) v w p e =
      let (u, visited, rest) = bind-eq-ok (step x v) (λ u. each step xs u) e in
      let (pu, vu, hx) = one x v u p visited in
      let (pw, uw, hxs) = each_reaches P R same chain grow one xs u w pu rest in
      (
        pw,
        chain v u w vu uw,
        λ a h. elim (contains_cases a x xs h) [
          | inl here ↦ subst (λ b. contains w b ≡ true) (sym here) (grow u w uw x hx)
          | inr later ↦ hxs a later
        ],
      )

  -- If every visit succeeds, the loop does.
  pub each_total {κ} :
      (P : List String → Type κ) (xs : List String)
      → ((x : String) (v : List String)
          → contains xs x ≡ true
          → P v
          → (w : List String) × (step x v ≡ ok w) × P w)
      → (v : List String) → P v
      → (w : List String) × (each step xs v ≡ ok w) × P w
  unfolding each
  each_total P [] one v p = (v, refl, p)
  each_total P (x ∷ xs) one v p =
      let (u, e, pu) = one x v (contains_head x xs) p in
      let (w, e', pw) = each_total P xs (λ y t h. one y t (contains_tail y x xs h)) u pu in
      (w, rw e e', pw)

  -- If every visit succeeds and reaches its item, the loop succeeds and reaches all.
  pub each_settles {κ} :
      (P : List String → Type κ) (R : List String → List String → Type κ)
      → ((v : List String) → R v v)
      → ((u v w : List String) → R u v → R v w → R u w)
      → ((u v : List String) → R u v → Within u v)
      → (xs : List String)
      → ((x : String) (v : List String)
          → contains xs x ≡ true
          → P v
          → (w : List String) × (step x v ≡ ok w) × P w × R v w × (contains w x ≡ true))
      → (v : List String) → P v
      → (w : List String) × (each step xs v ≡ ok w) × P w × R v w × Within xs w
  unfolding each
  each_settles P R same chain grow [] one v p = (v, refl, p, same v, λ a h. absurd (not_member a h))
  each_settles P R same chain grow (x ∷ xs) one v p =
      let (u, e, pu, vu, hx) = one x v (contains_head x xs) p in
      let (w, e', pw, uw, hxs) =
        each_settles P R same chain grow xs (λ y t h. one y t (contains_tail y x xs h)) u pu in
      (
        w,
        rw e e',
        pw,
        chain v u w vu uw,
        λ a h. elim (contains_cases a x xs h) [
          | inl here ↦ subst (λ b. contains w b ≡ true) (sym here) (grow u w uw x hx)
          | inr later ↦ hxs a later
        ],
      )

  -- A loop over visits that have fuel enough has fuel enough.
  pub each-ne-recursion :
      (xs : List String)
      → ((x : String) (v : List String) → step x v ≢ err recursion)
      → (v : List String) → each step xs v ≢ err recursion
  unfolding each
  each-ne-recursion [] enough v e = cc
  each-ne-recursion (x ∷ xs) enough v e =
      bind-ne-recursion (step x v) (λ u. each step xs u) (enough x v)
        (λ u. each-ne-recursion xs enough u) e
