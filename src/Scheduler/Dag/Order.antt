-- ===== src/Scheduler/Dag/Order.antt =====
-- `topological` lists the packages of an accepted graph, each behind its dependencies.
use railwarden.Base.{
  ℕ, zero, suc, ◌<◌, String, true, false, eq_iff, some, List, [], ◌∷◌, ◌++◌, ◌≡◌, refl, sym, subst,
  ◌∙◌, ◌≢◌, ap, ok, ◌>>=◌, Bool-cases, inl, inr, contains, Within, Nodup, Nodup-length-le,
  contains_cases, contains_tail, contains_head, contains_absent, contains-nil, ◌⊎◌, same_members,
  true_ne_false, not_member, length, lookup, keys, lookup-keys, length-keys, sorted,
  contains-sorted, contains-append, arith,
}
use mathlib.Core.List.{append-nil, append_assoc}
use railwarden.Config.{WorkPackage}
use railwarden.Scheduler.Dag.{Packages, each, arrange, depth, validate_dag, topological}
use railwarden.Scheduler.Dag.Loop.{each_settles}
use railwarden.Scheduler.Dag.Valid.{validate_dag-Good}
use railwarden.Scheduler.Dag.Visit.{dependencies_of-some}
use railwarden.Scheduler.Dag.Settled.{Settled, Good}

-- Behind `seen`, every package of the list stands behind its dependencies.
abbrev pub IsDependencyOrder : Packages → List String → List String → Type 0
IsDependencyOrder packages seen [] = Unit
IsDependencyOrder packages seen (x ∷ xs) =
    ((p : WorkPackage) → lookup x packages ≡ some p → Within p.dependencies seen)
    × IsDependencyOrder packages (seen ++ (x ∷ [])) xs

Nodup-snoc :
    (xs : List String) (a : String) → Nodup xs → contains xs a ≡ false → Nodup (xs ++ (a ∷ []))
unfolding contains
Nodup-snoc [] a u h = (refl, tt)
Nodup-snoc (x ∷ xs) a (fresh, u) h = (
  ground (arith, contains-append xs (a ∷ []) x, eq_iff x a, eq_iff a x),
  Nodup-snoc xs a u (ground arith),
)

snoc_cases :
    (xs : List String) (x a : String)
    → contains (xs ++ (x ∷ [])) a ≡ true
    → (contains xs a ≡ true) ⊎ (a ≡ x)
unfolding contains
snoc_cases xs x a h = ground (arith, contains-append xs (x ∷ []) a, eq_iff a x)

snoc_old :
    (xs : List String) (x a : String) → contains xs a ≡ true → contains (xs ++ (x ∷ [])) a ≡ true
snoc_old xs x a h = rw contains-append (ground arith)

snoc_last : (xs : List String) (x : String) → contains (xs ++ (x ∷ [])) x ≡ true
snoc_last xs x = rw (contains-append, contains_head x []) (ground arith)

snoc_absent :
    (xs : List String) (x a : String)
    → a ≢ x
    → contains xs a ≡ false
    → contains (xs ++ (x ∷ [])) a ≡ false
snoc_absent xs x a ne h = rw (contains-append, h) (contains_absent a x [] ne (contains-nil a))

tail_absent :
    (a x : String) (xs : List String) → contains (x ∷ xs) a ≡ false → contains xs a ≡ false
unfolding contains
tail_absent a x xs h = ground arith

module _ (packages : Packages) where
  IsDependencyOrder_snoc :
      (seen xs : List String) (a : String)
      → IsDependencyOrder packages seen xs
      → ((p : WorkPackage) → lookup a packages ≡ some p → Within p.dependencies (seen ++ xs))
      → IsDependencyOrder packages seen (xs ++ (a ∷ []))
  IsDependencyOrder_snoc seen [] a _ h = (λ p e. rw append-nil at (h p e), tt)
  IsDependencyOrder_snoc seen (x ∷ xs) a (here, later) h =
      (here, IsDependencyOrder_snoc (seen ++ (x ∷ [])) xs a later (λ p e. rw append_assoc (h p e)))

  record Arranged (ordered : List String) : Type 0 where
    before : IsDependencyOrder packages [] ordered
    nodup : Nodup ordered
    packaged : Within ordered (keys packages)

  -- Visits of these packages lose no member and add no other package.
  record Adds (xs v w : List String) : Type 0 where
    grows : Within v w
    spares : (a : String) → contains xs a ≡ false → contains v a ≡ false → contains w a ≡ false

  Adds-same : (xs v : List String) → Adds xs v v
  Adds-same xs v = record { grows = λ a h. h; spares = λ a h n. n }

  Adds-chain : (xs u v w : List String) → Adds xs u v → Adds xs v w → Adds xs u w
  Adds-chain xs u v w g h = record {
    grows = λ a m. h.grows a (g.grows a m);
    spares = λ a m n. h.spares a m (g.spares a m n);
  }

  Adds-more : (x : String) (xs v w : List String) → Adds xs v w → Adds (x ∷ xs) v w
  unfolding contains
  Adds-more x xs v w g = record { grows = g.grows; spares = λ a m n. g.spares a (ground arith) n }

  arrange_old :
      (fuel : ℕ) (id : String) (v : List String)
      → contains v id ≡ true
      → arrange packages (suc fuel) id v ≡ ok v
  unfolding arrange
  arrange_old fuel id v h = rw h

  arrange_new :
      (fuel : ℕ) (id : String) (v : List String) (p : WorkPackage)
      → contains v id ≡ false
      → lookup id packages ≡ some p
      → arrange packages (suc fuel) id v
        ≡ (each (arrange packages fuel) p.dependencies v >>= λ w. ok (w ++ (id ∷ [])))
  unfolding arrange
  arrange_new fuel id v p h found = rw (h, dependencies_of-some packages id p found)

  -- Over packages in an order of marking, a visit with that much fuel succeeds.
  arrange_settles :
      (xs : List String)
      → Settled packages xs
      → Nodup xs
      → Within xs (keys packages)
      → (fuel : ℕ) (id : String) (v : List String) → length xs < fuel
      → contains xs id ≡ true
      → Arranged v
      → (w : List String) × (arrange packages fuel id v ≡ ok w)
        × Arranged w
        × Adds xs v w
        × (contains w id ≡ true)
  arrange_settles [] s u within fuel id v h m good = absurd (not_member id m)
  arrange_settles (x ∷ xs) s u within zero id v h m good = absurd (omega arith)
  arrange_settles (x ∷ xs) (here, s) (fresh, u) within (suc fuel) id v h m good =
      elim (contains_cases id x xs m) [
        | inr later ↦
            let (w, e, gw, adds, has) =
              arrange_settles xs s u (λ a n. within a (contains_tail a x xs n)) (suc fuel) id v
                (omega arith) later good in
            (w, e, gw, Adds-more x xs v w adds, has)
        | inl same ↦ elim (Bool-cases (contains v id)) [
          | inl old ↦ (v, arrange_old fuel id v old, good, Adds-same (x ∷ xs) v, old)
          | inr new ↦
              let (p, found) = lookup-keys packages id (within id m) in
              let (t, e, gt, adds, has) =
                each_settles (arrange packages fuel) Arranged (Adds xs) (Adds-same xs)
                  (Adds-chain xs) (λ _ _ a. a.grows) p.dependencies
                  (λ d r inside gr.
                    arrange_settles xs s u (λ a n. within a (contains_tail a x xs n)) fuel d r
                      (omega arith)
                      (here p (subst (λ y. lookup y packages ≡ some p) same found) d inside) gr)
                  v good in
              let gone = adds.spares id (subst (λ y. contains xs y ≡ false) (sym same) fresh) new in
              (
                t ++ (id ∷ []),
                arrange_new fuel id v p new found ∙ rw e,
                record {
                  before = IsDependencyOrder_snoc [] t id gt.before λ q found'.
                      let one : p ≡ q = cc in subst (λ y. Within y.dependencies t) one has;
                  nodup = Nodup-snoc t id gt.nodup gone;
                  packaged = λ a n. elim (snoc_cases t id a n) [
                    | inl old ↦ gt.packaged a old
                    | inr e' ↦ subst (λ y. contains (keys packages) y ≡ true) (sym e') (within id m)
                  ];
                },
                record {
                  grows = λ a n. snoc_old t id a (adds.grows a n);
                  spares = λ a n n'.
                      snoc_absent t id a
                        (λ e'. true_ne_false (sym m ∙ ap (contains (x ∷ xs)) (sym e') ∙ n))
                        (adds.spares a (tail_absent a x xs n) n');
                },
                snoc_last t id,
              )
        ]
      ]

  -- A walk in the packages of an accepted graph.
  topological-Arranged :
      (xs : List String)
      → Good packages xs
      → Within (keys packages) xs
      → (w : List String) × (each (arrange packages (depth packages)) (sorted (keys packages)) []
          ≡ ok w)
        × Arranged w
        × Adds xs [] w
        × Within (sorted (keys packages)) w
  unfolding depth
  topological-Arranged xs good all =
      each_settles (arrange packages (depth packages)) Arranged (Adds xs) (Adds-same xs)
        (Adds-chain xs) (λ _ _ a. a.grows) (sorted (keys packages))
        (λ id v m gv.
          arrange_settles xs good.settled good.nodup good.packaged (depth packages) id v
            (omega (
              arith,
              Nodup-length-le xs (keys packages) good.nodup good.packaged,
              length-keys packages,
            ))
            (all id (sym (contains-sorted (keys packages) id) ∙ m)) gv)
        [] (record { before = tt; nodup = tt; packaged = λ a h. absurd (not_member a h) })

  -- If `validate_dag` accepts the packages, `topological` returns a list that holds exactly the
  -- packages' ids, none twice, and in which every package stands behind all of its dependencies.
  pub topological-order :
      validate_dag packages ≡ ok tt
      → (ordered : List String) × (topological packages ≡ ok ordered)
        × IsDependencyOrder packages [] ordered
        × Nodup ordered
        × ((a : String) → contains ordered a ≡ contains (keys packages) a)
  unfolding topological
  topological-order e =
      let (xs, good, all) = validate_dag-Good packages e in
      let (w, walked, gw, _, has) = topological-Arranged xs good all in
      (
        w,
        rw e walked,
        gw.before,
        gw.nodup,
        λ a.
            same_members w (keys packages) gw.packaged
              (λ b h. has b (contains-sorted (keys packages) b ∙ h)) a,
      )
