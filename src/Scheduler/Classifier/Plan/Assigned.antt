-- ===== src/Scheduler/Classifier/Plan/Assigned.antt =====
-- How the plan assigns the workers.
use railwarden.Base.{
  ℕ, zero, suc, ◌≤◌, String, true, false, List, [], ◌∷◌, ◌++◌, length, length-append, sorted_by,
  place, ◌≡◌, refl, sym, ap, ◌∙◌, subst, ◌⊎◌, inl, inr, Bool-cases, arith, All, true_ne_false,
}
use railwarden.Config.{ProjectConfig}
use railwarden.Scheduler.Classifier.{PackageState}
use railwarden.Scheduler.Classifier.Plan.{
  Assignment, take, select_states, is_candidate, is_repair, candidate_le, candidates_of, assign,
  execution_plan,
}

-- The workers of the assignments, in their order.
abbrev pub workers_of : List Assignment → List String
workers_of [] = []
workers_of (a ∷ assignments) = a.worker ∷ workers_of assignments

abbrev pub states_of : List Assignment → List PackageState
states_of [] = []
states_of (a ∷ assignments) = a.state ∷ states_of assignments

-- The assignments take the workers and the states from the front, until one of them is used up.
assign_split :
    (states : List PackageState) (available : List String)
    → (left : List PackageState) × (states_of (assign states available).0 ++ left ≡ states)
      × (workers_of (assign states available).0 ++ (assign states available).1 ≡ available)
      × ((left ≡ []) ⊎ ((assign states available).1 ≡ []))
unfolding assign
assign_split [] available = ([], refl, refl, inl refl)
assign_split (state ∷ states) [] = (state ∷ states, refl, refl, inr refl)
assign_split (state ∷ states) (worker ∷ available) =
    let (left, same_states, same_workers, used) = assign_split states available in
    (left, ap (λ xs. state ∷ xs) same_states, ap (λ xs. worker ∷ xs) same_workers, used)

length-take : {A : Type 0} (n : ℕ) (xs : List A) → length (take n xs) ≤ n
unfolding take
length-take zero xs = omega arith
length-take (suc n) [] = omega arith
length-take (suc n) (x ∷ xs) = omega (arith, length-take n xs)

length-workers_of :
    (assignments : List Assignment) → length (workers_of assignments) ≡ length assignments
length-workers_of [] = refl
length-workers_of (_ ∷ assignments) = ap suc (length-workers_of assignments)

abbrev pub IsExecute : PackageState → Type 0
IsExecute state = is_repair state ≡ false

-- No repair comes after a package that is none.
abbrev pub RepairsFirst : List PackageState → Type 0
RepairsFirst [] = Unit
RepairsFirst (state ∷ states) =
    ((is_repair state ≡ true) ⊎ All IsExecute states) × RepairsFirst states

All-place :
    (x : PackageState) (ys : List PackageState)
    → IsExecute x
    → All IsExecute ys
    → All IsExecute (place candidate_le x ys)
unfolding place
All-place x [] h all = (h, tt)
All-place x (y ∷ ys) h (first, rest) = elim (Bool-cases (candidate_le x y)) [
  | inl before ↦ rw before (h, (first, rest))
  | inr after ↦ rw after (first, All-place x ys h rest)
]

-- A package that is no repair goes in front of none that is.
le-IsExecute : (x y : PackageState) → IsExecute x → candidate_le x y ≡ true → IsExecute y
unfolding candidate_le
le-IsExecute x y h before = ground arith

-- A repair goes in front of a package that is none.
not_le-IsExecute : (x y : PackageState) → IsExecute y → candidate_le x y ≡ false → IsExecute x
unfolding candidate_le
not_le-IsExecute x y h after = ground arith

RepairsFirst-place :
    (x : PackageState) (ys : List PackageState)
    → RepairsFirst ys
    → RepairsFirst (place candidate_le x ys)
unfolding place
RepairsFirst-place x [] h = (inr tt, tt)
RepairsFirst-place x (y ∷ ys) (first, rest) = elim (Bool-cases (candidate_le x y)) [
  | inl before ↦ rw before (in_front (Bool-cases (is_repair x)) before, (first, rest))
  | inr after ↦ rw after (behind first after, RepairsFirst-place x ys rest)
]
  where
    in_front :
        (is_repair x ≡ true) ⊎ (is_repair x ≡ false)
        → candidate_le x y ≡ true
        → (is_repair x ≡ true) ⊎ All IsExecute (y ∷ ys)
    in_front (inl repair) before = inl repair
    in_front (inr execute) before =
        let second = le-IsExecute x y execute before in
        inr (
          second,
          elim first [ inl repair ↦ absurd (true_ne_false (sym repair ∙ second)) | inr all ↦ all ],
        )

    behind :
        (is_repair y ≡ true) ⊎ All IsExecute ys
        → candidate_le x y ≡ false
        → (is_repair y ≡ true) ⊎ All IsExecute (place candidate_le x ys)
    behind (inl repair) after = inl repair
    behind (inr all) after = elim (Bool-cases (is_repair y)) [
      | inl repair ↦ inl repair
      | inr execute ↦ inr (All-place x ys (not_le-IsExecute x y execute after) all)
    ]

RepairsFirst-sorted_by : (states : List PackageState) → RepairsFirst (sorted_by candidate_le states)
unfolding sorted_by
RepairsFirst-sorted_by [] = tt
RepairsFirst-sorted_by (state ∷ states) =
    RepairsFirst-place state (sorted_by candidate_le states) (RepairsFirst-sorted_by states)

All-prefix : (xs ys : List PackageState) → All IsExecute (xs ++ ys) → All IsExecute xs
All-prefix [] ys all = tt
All-prefix (x ∷ xs) ys (first, rest) = (first, All-prefix xs ys rest)

RepairsFirst-prefix : (xs ys : List PackageState) → RepairsFirst (xs ++ ys) → RepairsFirst xs
RepairsFirst-prefix [] ys h = tt
RepairsFirst-prefix (x ∷ xs) ys (first, rest) = (
  elim first [ inl repair ↦ inl repair | inr all ↦ inr (All-prefix xs ys all) ],
  RepairsFirst-prefix xs ys rest,
)

-- The plan's assignments, for all states: the workers are the first of the configured ones in
-- their order, each used once, and no more than `worker_concurrency`; the packages are the first of
-- the sorted candidates, the repairs before the others; and a candidate is left over only if no
-- worker is.
pub execution_plan-Assigned :
    (config : ProjectConfig) (states : List PackageState)
    → (workers_of (execution_plan config states).worker_assignments
          ++ (execution_plan config states).available_workers
        ≡ take config.worker_concurrency config.worker_providers)
      × (length (execution_plan config states).worker_assignments ≤ config.worker_concurrency)
      × RepairsFirst (states_of (execution_plan config states).worker_assignments)
      × (left : List PackageState) × (states_of (execution_plan config states).worker_assignments
            ++ left
          ≡ candidates_of states)
      × ((left ≡ []) ⊎ ((execution_plan config states).available_workers ≡ []))
unfolding execution_plan candidates_of
execution_plan-Assigned config states =
    let (left, same_states, same_workers, used) = assign_split (candidates_of states) available in
    (
      same_workers,
      bounded same_workers,
      RepairsFirst-prefix (states_of (assign (candidates_of states) available).0) left (
          subst RepairsFirst (sym same_states)
            (RepairsFirst-sorted_by (select_states is_candidate states))),
      left,
      same_states,
      used,
    )
  where
    available : List String
    available = take config.worker_concurrency config.worker_providers

    bounded :
        workers_of (assign (candidates_of states) available).0
            ++ (assign (candidates_of states) available).1
          ≡ available
        → length (assign (candidates_of states) available).0 ≤ config.worker_concurrency
    bounded same =
        let total =
          length-append (workers_of (assign (candidates_of states) available).0)
            (assign (candidates_of states) available).1 in
        omega (
          arith,
          total,
          ap length same,
          length-workers_of (assign (candidates_of states) available).0,
          length-take config.worker_concurrency config.worker_providers,
        )
