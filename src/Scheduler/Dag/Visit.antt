-- ===== src/Scheduler/Dag/Visit.antt =====
-- One call of `visit`, case by case, and the depth of its recursion.
use railwarden.Base.{
  ℕ, zero, suc, ◌+◌, ◌≤◌, String, true, false, none, some, List, [], ◌∷◌, ◌≡◌, ◌≢◌, ok, err,
  configuration, key_error, recursion, ◌>>=◌, bind-ne-recursion, Bool-cases, Option-cases, inl, inr,
  contains, Within, Nodup, Nodup-length-le, contains_cases, length, lookup, keys, length-keys,
  keys-lookup, arith, sym, subst, ◌∙◌,
}
use railwarden.Config.{WorkPackage}
use railwarden.Scheduler.Dag.{Packages, dependencies_of, each, visit}
use railwarden.Scheduler.Dag.Loop.{each-ne-recursion}

pub Within-cons :
    (x : String) (xs ys : List String) → Within xs ys → contains ys x ≡ true → Within (x ∷ xs) ys
Within-cons x xs ys w h a m = elim (contains_cases a x xs m) [
  | inl e ↦ subst (λ b. contains ys b ≡ true) (sym e) h
  | inr m' ↦ w a m'
]

module _ (packages : Packages) where
  pub dependencies_of-some :
      (id : String) (p : WorkPackage)
      → lookup id packages ≡ some p
      → dependencies_of packages id ≡ ok p.dependencies
  unfolding dependencies_of
  dependencies_of-some id p found = rw (found, dependencies_of)

  dependencies_of-none :
      (id : String)
      → lookup id packages ≡ none
      → dependencies_of packages id ≡ err (key_error (id ∷ []))
  unfolding dependencies_of
  dependencies_of-none id absent = rw (absent, dependencies_of)

  -- What one call of `visit` does.
  pub data Entry (fuel : ℕ) (visiting : List String) (id : String) (visited : List String)
      : Type 0 where
    again :
        contains visiting id ≡ true
        → visit packages (suc fuel) visiting id visited
          ≡ err (configuration ("Dependency cycle detected at " ∷ id ∷ []))
        → Entry fuel visiting id visited
    seen :
        contains visited id ≡ true
        → visit packages (suc fuel) visiting id visited ≡ ok visited
        → Entry fuel visiting id visited
    missing :
        lookup id packages ≡ none
        → visit packages (suc fuel) visiting id visited ≡ err (key_error (id ∷ []))
        → Entry fuel visiting id visited
    enter :
        contains visiting id ≡ false
        → contains visited id ≡ false
        → (p : WorkPackage) → lookup id packages ≡ some p
        → visit packages (suc fuel) visiting id visited
          ≡ (each (visit packages fuel (id ∷ visiting)) p.dependencies visited >>= λ v. ok (id ∷ v))
        → Entry fuel visiting id visited

  pub entry :
      (fuel : ℕ) (visiting : List String) (id : String) (visited : List String)
      → Entry fuel visiting id visited
  unfolding visit
  entry fuel visiting id visited = elim (Bool-cases (contains visiting id)) [
    | inl open_ ↦ again open_ (rw open_)
    | inr fresh ↦ elim (Bool-cases (contains visited id)) [
      | inl old ↦ seen old (rw (fresh, old))
      | inr new ↦ elim (Option-cases (lookup id packages)) [
        | inl absent ↦ missing absent (rw (fresh, new, dependencies_of-none id absent))
        | inr (p, found) ↦
            enter fresh new p found (rw (fresh, new, dependencies_of-some id p found))
      ]
    ]
  ]

  -- The visits in progress are packages, each entered once.
  abbrev pub Open : List String → Type 0
  Open visiting = Nodup visiting × Within visiting (keys packages)

  -- The fuel is enough for what may still be entered.
  pub visit-ne-recursion :
      (fuel : ℕ) (visiting : List String) (id : String) (visited : List String)
      → Open visiting
      → length packages + 1 ≤ fuel + length visiting
      → visit packages fuel visiting id visited ≢ err recursion
  unfolding visit
  visit-ne-recursion zero visiting id visited (u, w) h e =
      omega (arith, Nodup-length-le visiting (keys packages) u w, length-keys packages)
  visit-ne-recursion (suc fuel) visiting id visited (u, w) h e =
      elim (entry fuel visiting id visited) [
        | again _ r ↦ cc
        | seen _ r ↦ cc
        | missing _ r ↦ cc
        | enter fresh _ p found r ↦
            bind-ne-recursion (each (visit packages fuel (id ∷ visiting)) p.dependencies visited)
              (λ v. ok (id ∷ v))
              (each-ne-recursion (visit packages fuel (id ∷ visiting)) p.dependencies
                (λ x v.
                  visit-ne-recursion fuel (id ∷ visiting) x v
                    (
                      (fresh, u),
                      Within-cons id visiting (keys packages) w (keys-lookup packages id p found),
                    )
                    (omega arith))
                visited)
              (λ v h. cc) (sym r ∙ e)
      ]
