-- ===== src/Tasks/Choice.antt =====
-- Which task stands for a package.
use railwarden.Base.{
  ℕ, ◌≤◌, String, true, false, Option, none, some, List, [], ◌∷◌, ok, ◌≡◌, refl, sym, subst, ap,
  ◌∙◌, inl, inr, Bool-cases, sorted_by, place, arith, All, IsIn, true_ne_false,
}
use railwarden.Value.{Fields, Show, text_of}
use railwarden.Runtime.{Runtime}
use railwarden.Tasks.{load_tasks, priority, belongs, before, matching, first, task_for_package}

module _ (show : Show) where
  abbrev pub rank : Fields → ℕ
  rank t = priority show (text_of show "status" t)

  rank-le_of_before : (t u : Fields) → before show t u ≡ true → rank t ≤ rank u
  unfolding before
  rank-le_of_before t u h = ground arith

  rank-le_of_not_before : (t u : Fields) → before show t u ≡ false → rank u ≤ rank t
  unfolding before
  rank-le_of_not_before t u h = ground arith

  -- The head of the sorted list has the least rank.
  abbrev Least : Fields → List Fields → Type 0
  Least t us = All (λ u. rank t ≤ rank u) us

  Least-weaken : (t u : Fields) (us : List Fields) → rank t ≤ rank u → Least u us → Least t us
  Least-weaken t u [] h _ = tt
  Least-weaken t u (v ∷ vs) h (here, later) = (omega arith, Least-weaken t u vs h later)

  abbrev Headed : List Fields → List Fields → Type 0
  Headed [] us = us ≡ []
  Headed (t ∷ _) us = IsIn t us × Least t us

  place-Headed :
      (t : Fields) (ss us : List Fields) → Headed ss us → Headed (place (before show) t ss) (t ∷ us)
  unfolding place
  place-Headed t [] us e = (inl refl, (omega arith, subst (Least t) (sym e) tt))
  place-Headed t (s ∷ ss) us (m, least) = elim (Bool-cases (before show t s)) [
    | inl b ↦ rw b (inl refl, (omega arith, Least-weaken t s us (rank-le_of_before t s b) least))
    | inr b ↦ rw b (inr m, (rank-le_of_not_before t s b, least))
  ]

  sorted_by-Headed : (us : List Fields) → Headed (sorted_by (before show) us) us
  unfolding sorted_by
  sorted_by-Headed [] = refl
  sorted_by-Headed (u ∷ us) = place-Headed u (sorted_by (before show) us) us (sorted_by-Headed us)

  matching_member :
      (package_id : String) (t : Fields) (ts : List Fields)
      → IsIn t (matching show package_id ts)
      → IsIn t ts × (belongs show package_id t ≡ true)
  unfolding matching belongs
  matching_member package_id t [] m = absurd m
  matching_member package_id t (u ∷ us) m = elim (Bool-cases (belongs show package_id u)) [
    | inl b ↦ elim (kept b m) [
      | inl e ↦ (inl e, ap (belongs show package_id) e ∙ b)
      | inr later ↦ let (i, h) = matching_member package_id t us later in (inr i, h)
    ]
    | inr b ↦ let (i, h) = matching_member package_id t us (dropped b m) in (inr i, h)
  ]
    where
      kept :
          belongs show package_id u ≡ true
          → IsIn t (matching show package_id (u ∷ us))
          → IsIn t (u ∷ matching show package_id us)
      kept b m = rw b at m

      dropped :
          belongs show package_id u ≡ false
          → IsIn t (matching show package_id (u ∷ us))
          → IsIn t (matching show package_id us)
      dropped b m = rw b at m

  -- Of the tasks of the list, those of the package have at least this rank.
  abbrev pub NoneBefore : String → Fields → List Fields → Type 0
  NoneBefore package_id t = All (λ u. belongs show package_id u ≡ true → rank t ≤ rank u)

  Least-matching :
      (package_id : String) (t : Fields) (ts : List Fields)
      → Least t (matching show package_id ts)
      → NoneBefore package_id t ts
  unfolding matching belongs
  Least-matching package_id t [] _ = tt
  Least-matching package_id t (u ∷ us) l = elim (Bool-cases (belongs show package_id u)) [
    | inl b ↦
        let l' : Least t (u ∷ matching show package_id us) = rw b at l in
        (λ _. l'.0, Least-matching package_id t us l'.1)
    | inr b ↦ (λ h. absurd (true_ne_false (sym h ∙ b)), Least-matching package_id t us (rw b at l))
  ]

  matching-eq-nil :
      (package_id : String) (ts : List Fields)
      → matching show package_id ts ≡ []
      → All (λ u. belongs show package_id u ≡ false) ts
  unfolding matching belongs
  matching-eq-nil package_id [] _ = tt
  matching-eq-nil package_id (u ∷ us) e = elim (Bool-cases (belongs show package_id u)) [
    | inl b ↦ let e' : (u ∷ matching show package_id us) ≡ [] = rw b at e in absurd (cc)
    | inr b ↦ (b, matching-eq-nil package_id us (rw b at e))
  ]

  -- What the choice among these tasks must be.
  abbrev pub Chosen : String → List Fields → Option Fields → Type 0
  Chosen package_id tasks none = All (λ u. belongs show package_id u ≡ false) tasks
  Chosen package_id tasks (some t) =
      IsIn t tasks × (belongs show package_id t ≡ true) × NoneBefore package_id t tasks

  first-Chosen :
      (package_id : String) (tasks ss : List Fields)
      → Headed ss (matching show package_id tasks)
      → Chosen package_id tasks (first show ss)
  first-Chosen package_id tasks [] e = matching-eq-nil package_id tasks e
  first-Chosen package_id tasks (t ∷ ss) (m, l) =
      let (i, b) = matching_member package_id t tasks m in
      (i, b, Least-matching package_id t tasks l)

  -- `task_for_package` gives `None` exactly if no task belongs to the package. Otherwise it gives
  -- a task of the ledger that belongs to the package, and no task of the package has a status
  -- that comes before its status in the table of priorities.
  pub task_for_package-Chosen :
      (package_id : String) (tasks : List Fields) (rt : Runtime)
      → load_tasks rt ≡ ok tasks
      → (o : Option Fields) × (task_for_package show package_id rt ≡ ok o)
        × Chosen package_id tasks o
  unfolding task_for_package
  task_for_package-Chosen package_id tasks rt loaded =
      let ss = sorted_by (before show) (matching show package_id tasks) in
      (
        first show ss,
        rw (loaded, task_for_package),
        first-Chosen package_id tasks ss (sorted_by-Headed (matching show package_id tasks)),
      )
