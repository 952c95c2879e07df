-- ===== src/Scheduler/Dag/Valid.antt =====
-- `validate_dag` accepts exactly the graphs with known dependencies and no cycle.
use railwarden.Base.{
  ℕ, zero, suc, ◌+◌, ◌<◌, ◌≤◌, String, true, some, List, [], ◌∷◌, ◌≡◌, refl, ◌≢◌, ◌↔◌, ok, err,
  recursion, ◌>>=◌, bind-eq-ok, bind-ne-recursion, ok-ne-err, inl, inr, contains, Within,
  Nodup-length-le, contains_cases, contains_tail, contains_head, length, lookup, keys, NodupKeys,
  lookup-keys, length-keys, keys-lookup, arith, sym, subst, ◌∙◌, lookup_first, lookup_later,
  NodupKeys-tail, not_member,
}
use railwarden.Config.{WorkPackage}
use railwarden.Scheduler.Dag.{Packages, each, minus, check_known, visit, depth, validate_dag}
use railwarden.Scheduler.Dag.Loop.{each_reaches, each_total, each-ne-recursion}
use railwarden.Scheduler.Dag.Settled.{
  Good, Grows, Grows-same, Grows-chain, visit_reaches, Settled-closed, Settled-falls, rank,
}
use railwarden.Scheduler.Dag.Visit.{
  again, seen, missing, enter, entry, Open, Within-cons, visit-ne-recursion,
}

-- Every dependency of a package is the id of a package.
abbrev pub Known : Packages → Type 0
Known packages =
    (id : String) (p : WorkPackage)
    → lookup id packages ≡ some p
    → Within p.dependencies (keys packages)

-- The ranks fall along every dependency.
abbrev pub Falls : Packages → (String → ℕ) → Type 0
Falls packages rank =
    (id : String) (p : WorkPackage) (d : String)
    → lookup id packages ≡ some p
    → contains p.dependencies d ≡ true
    → rank d < rank id

-- There is no cycle: some ranking falls along every dependency.
abbrev pub Acyclic : Packages → Type 0
Acyclic packages = (rank : String → ℕ) × Falls packages rank

module _ (packages : Packages) where
  -- With fuel for what is not in progress, and ranks that fall towards the package from all that
  -- is in progress, the visit succeeds.
  visit_total :
      (rank : String → ℕ)
      → Known packages
      → Falls packages rank
      → (fuel : ℕ) (visiting : List String) (id : String) (v : List String) → Open packages visiting
      → length packages + 1 ≤ fuel + length visiting
      → ((a : String) → contains visiting a ≡ true → rank id < rank a)
      → contains (keys packages) id ≡ true
      → (w : List String) × (visit packages fuel visiting id v ≡ ok w)
  visit_total rank known falls zero visiting id v (u, within) h above m =
      absurd
        (omega (arith, Nodup-length-le visiting (keys packages) u within, length-keys packages))
  visit_total rank known falls (suc fuel) visiting id v (u, within) h above m =
      elim (entry packages fuel visiting id v) [
        | again open_ _ ↦ absurd (omega (arith, above id open_))
        | seen _ r ↦ (v, r)
        | missing absent _ ↦ let (q, found) = lookup-keys packages id m in absurd (cc)
        | enter fresh _ p found r ↦
            let (w, e, _) =
              each_total (visit packages fuel (id ∷ visiting)) (λ _. Unit {0}) p.dependencies
                (λ d t inside _.
                  let (w, e) =
                    visit_total rank known falls fuel (id ∷ visiting) d t
                      ((fresh, u), Within-cons id visiting (keys packages) within m) (omega arith)
                      (λ a member. elim (contains_cases a id visiting member) [
                        | inl e ↦ subst (λ b. rank d < rank b) (sym e) (falls id p d found inside)
                        | inr later ↦ omega (arith, above a later, falls id p d found inside)
                      ])
                      (known id p found d inside) in
                  (w, e, tt))
                v tt in
            (id ∷ w, r ∙ rw e)
      ]

minus-eq-nil : (xs known : List String) → Within xs known → minus xs known ≡ []
unfolding minus
minus-eq-nil [] known w = refl
minus-eq-nil (x ∷ xs) known w =
    rw (w x (contains_head x xs), minus-eq-nil xs known (λ a m. w a (contains_tail a x xs m)))

check_known-eq-ok :
    (known : List String) (rest : Packages)
    → NodupKeys rest
    → ((id : String) (p : WorkPackage) → lookup id rest ≡ some p → Within p.dependencies known)
    → check_known known rest ≡ ok tt
unfolding check_known
check_known-eq-ok known [] u h = refl
check_known-eq-ok known ((k, p) ∷ rest) u h =
    rw (minus-eq-nil p.dependencies known (h k p (lookup_first k p rest)), check_known)
      (check_known-eq-ok known rest (NodupKeys-tail k p rest u)
        (λ id q e. h id q (lookup_later id k p q rest u e)))

check_known-ne-recursion :
    (known : List String) (rest : Packages) → check_known known rest ≢ err recursion
unfolding check_known
check_known-ne-recursion known [] e = cc
check_known-ne-recursion known ((k, p) ∷ rest) e =
    ground (arith, check_known-ne-recursion known rest)

module _ (packages : Packages) where
  -- The graphs that are accepted: what the walk has marked shows that they are sound.
  pub validate_dag-Good :
      validate_dag packages ≡ ok tt → (w : List String) × Good packages w × Within (keys packages) w
  unfolding validate_dag
  validate_dag-Good e =
      let (_, _, walked) =
        bind-eq-ok (check_known (keys packages) packages)
          (λ _. each (visit packages (depth packages) []) (keys packages) [] >>= λ _. ok tt) e in
      let (w, looped, _) =
        bind-eq-ok (each (visit packages (depth packages) []) (keys packages) []) (λ _. ok tt)
          walked in
      let (good, _, all) =
        each_reaches (visit packages (depth packages) []) (Good packages) (Grows packages [])
          (Grows-same packages []) (Grows-chain packages []) (λ _ _ g. g.grows)
          (visit_reaches packages (depth packages) []) (keys packages) [] w
          (record { settled = tt; nodup = tt; packaged = λ a h. absurd (not_member a h) }) looped in
      (w, good, all)

  validate_dag_sound : validate_dag packages ≡ ok tt → Known packages × Acyclic packages
  validate_dag_sound e =
      let (w, good, all) = validate_dag-Good e in
      (
        λ id p found d h. good.packaged d (
            Settled-closed packages w id p good.settled (all id (keys-lookup packages id p found))
              found d h),
        (
          rank w,
          λ id p d found h.
              Settled-falls packages w id d p good.settled good.nodup
                (all id (keys-lookup packages id p found)) found h,
        ),
      )

  validate_dag_complete :
      NodupKeys packages → Known packages → Acyclic packages → validate_dag packages ≡ ok tt
  unfolding validate_dag depth
  validate_dag_complete u known (rank, falls) =
      let (w, e, _) =
        each_total (visit packages (depth packages) []) (λ _. Unit {0}) (keys packages)
          (λ id v m _.
            let (w, e) =
              visit_total packages rank known falls (depth packages) [] id v
                (tt, λ a h. absurd (not_member a h)) (omega arith) (λ a h. absurd (not_member a h))
                m in
            (w, e, tt))
          [] tt in
      rw (check_known-eq-ok (keys packages) packages u known, e)

  -- For a dict of packages, `validate_dag` returns without an exception exactly if every
  -- dependency is the id of a package and the dependencies have no cycle.
  pub validate_dag_iff :
      NodupKeys packages → (validate_dag packages ≡ ok tt) ↔ (Known packages × Acyclic packages)
  validate_dag_iff u =
      (validate_dag_sound, λ (known, acyclic). validate_dag_complete u known acyclic)

  -- The recursion of `validate_dag` stops within the fuel of the model, whatever the graph is: a
  -- cycle, an unknown dependency and a repeated id included.
  pub validate_dag-ne-recursion : validate_dag packages ≢ err recursion
  unfolding validate_dag depth
  validate_dag-ne-recursion =
      bind-ne-recursion (check_known (keys packages) packages)
        (λ _. each (visit packages (depth packages) []) (keys packages) [] >>= λ _. ok tt)
        (check_known-ne-recursion (keys packages) packages)
        (λ _.
          bind-ne-recursion (each (visit packages (depth packages) []) (keys packages) [])
            (λ _. ok tt)
            (each-ne-recursion (visit packages (depth packages) []) (keys packages)
              (λ id v.
                visit-ne-recursion packages (depth packages) [] id v
                  (tt, λ a h. absurd (not_member a h)) (omega arith))
              [])
            (λ _. ok-ne-err tt recursion))
