-- ===== src/Scheduler/Dag/Settled.antt =====
-- What a visit of `validate_dag` marks, and a ranking of the packages from the order of marking.
use railwarden.Base.{
  ℕ, zero, suc, ◌<◌, ◌≤◌, String, true, false, ◌==◌, eq_refl, some, List, [], ◌∷◌, ◌≡◌, ◌≢◌, ok,
  bind-eq-ok, inl, inr, contains, Within, Nodup, contains_cases, contains_tail, contains_head,
  length, lookup, keys, keys-lookup, if◌then◌else◌, arith, sym, subst, ◌∙◌, text_ne,
  contains_absent, member_ne,
}
use railwarden.Config.{WorkPackage}
use railwarden.Scheduler.Dag.{Packages, each, visit}
use railwarden.Scheduler.Dag.Loop.{each_reaches}
use railwarden.Scheduler.Dag.Visit.{again, seen, missing, enter, entry, Within-cons}

-- Newest first: the dependencies of each member were members before it.
abbrev pub Settled : Packages → List String → Type 0
Settled packages [] = Unit
Settled packages (x ∷ xs) =
    ((p : WorkPackage) → lookup x packages ≡ some p → Within p.dependencies xs)
    × Settled packages xs

module _ (packages : Packages) where
  pub record Good (visited : List String) : Type 0 where
    pub settled : Settled packages visited
    pub nodup : Nodup visited
    pub packaged : Within visited (keys packages)

  -- What a visit with these visits in progress adds: no member is lost, and none of the visits in
  -- progress is marked.
  pub record Grows (visiting v w : List String) : Type 0 where
    pub grows : Within v w
    pub spares :
        (a : String) → contains visiting a ≡ true → contains v a ≡ false → contains w a ≡ false

  pub Grows-same : (visiting v : List String) → Grows visiting v v
  Grows-same visiting v = record { grows = λ a h. h; spares = λ a h n. n }

  pub Grows-chain :
      (visiting u v w : List String) → Grows visiting u v → Grows visiting v w → Grows visiting u w
  Grows-chain visiting u v w g h = record {
    grows = λ a m. h.grows a (g.grows a m);
    spares = λ a m n. h.spares a m (g.spares a m n);
  }

  -- A visit that returns has marked its package behind the package's dependencies.
  pub visit_reaches :
      (fuel : ℕ) (visiting : List String) (id : String) (v w : List String)
      → Good v
      → visit packages fuel visiting id v ≡ ok w
      → Good w × Grows visiting v w × (contains w id ≡ true)
  unfolding visit
  visit_reaches zero visiting id v w good e = absurd (cc)
  visit_reaches (suc fuel) visiting id v w good e = elim (entry packages fuel visiting id v) [
    | again _ r ↦ absurd (cc)
    | seen old r ↦
        subst (λ l. Good l × Grows visiting v l × (contains l id ≡ true)) (cc)
          (good, Grows-same visiting v, old)
    | missing _ r ↦ absurd (cc)
    | enter fresh new p found r ↦
        let (u, looped, ended) =
          bind-eq-ok (each (visit packages fuel (id ∷ visiting)) p.dependencies v)
            (λ l. ok (id ∷ l)) (sym r ∙ e) in
        let (gu, grow, has) =
          each_reaches (visit packages fuel (id ∷ visiting)) Good (Grows (id ∷ visiting))
            (Grows-same (id ∷ visiting)) (Grows-chain (id ∷ visiting)) (λ _ _ g. g.grows)
            (visit_reaches fuel (id ∷ visiting)) p.dependencies v u good looped in
        subst (λ l. Good l × Grows visiting v l × (contains l id ≡ true)) (cc)
          (
            record {
              settled = (
                λ q same. let one : p ≡ q = cc in subst (λ y. Within y.dependencies u) one has,
                gu.settled,
              );
              nodup = (grow.spares id (contains_head id visiting) new, gu.nodup);
              packaged =
                  Within-cons id u (keys packages) gu.packaged (keys-lookup packages id p found);
            },
            record {
              grows = λ a m. contains_tail a id u (grow.grows a m);
              spares = λ a m n.
                  contains_absent a id u (member_ne a id visiting m fresh)
                    (grow.spares a (contains_tail a id visiting m) n);
            },
            contains_head id u,
          )
  ]

  pub Settled-closed :
      (xs : List String) (id : String) (p : WorkPackage)
      → Settled packages xs
      → contains xs id ≡ true
      → lookup id packages ≡ some p
      → Within p.dependencies xs
  unfolding contains
  Settled-closed [] id p s m found d h = absurd (cc)
  Settled-closed (x ∷ xs) id p (here, s) m found d h =
      contains_tail d x xs (elim (contains_cases id x xs m) [
        | inl e ↦ here p (subst (λ y. lookup y packages ≡ some p) e found) d h
        | inr later ↦ Settled-closed xs id p s later found d h
      ])

-- How many packages were settled when this one was.
pub rank : List String → String → ℕ
rank [] a = 0
rank (x ∷ xs) a = if a == x then suc (length xs) else rank xs a

rank-le-length : (xs : List String) (a : String) → rank xs a ≤ length xs
unfolding rank
rank-le-length [] a = omega arith
rank-le-length (x ∷ xs) a = ground (arith, rank-le-length xs a)

rank_head : (x : String) (xs : List String) → rank (x ∷ xs) x ≡ suc (length xs)
unfolding rank
rank_head x xs = rw eq_refl

rank_tail : (a x : String) (xs : List String) → a ≢ x → rank (x ∷ xs) a ≡ rank xs a
unfolding rank
rank_tail a x xs ne = rw (text_ne a x ne)

module _ (packages : Packages) where
  pub Settled-falls :
      (xs : List String) (id d : String) (p : WorkPackage)
      → Settled packages xs
      → Nodup xs
      → contains xs id ≡ true
      → lookup id packages ≡ some p
      → contains p.dependencies d ≡ true
      → rank xs d < rank xs id
  unfolding contains
  Settled-falls [] id d p s u m found h = absurd (cc)
  Settled-falls (x ∷ xs) id d p (here, s) (fresh, u) m found h = elim (contains_cases id x xs m) [
    | inl e ↦
        let below = here p (subst (λ y. lookup y packages ≡ some p) e found) d h in
        subst (λ y. rank (x ∷ xs) d < rank (x ∷ xs) y) (sym e)
          (omega (
            arith,
            rank_head x xs,
            rank-le-length xs d,
            rank_tail d x xs (member_ne d x xs below fresh),
          ))
    | inr later ↦
        let below = Settled-closed packages xs id p s later found d h in
        omega (
          arith,
          Settled-falls xs id d p s u later found h,
          rank_tail d x xs (member_ne d x xs below fresh),
          rank_tail id x xs (member_ne id x xs later fresh),
        )
  ]
