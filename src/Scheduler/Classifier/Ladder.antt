-- ===== src/Scheduler/Classifier/Ladder.antt =====
-- What it takes for a package to be ready.
use railwarden.Base.{
  String, ◌==◌, Bool, true, false, ◌&&◌, ◌||◌, Option, List, [], ◌∷◌, ok, bind-eq-ok, Dict,
  contains, if◌then◌else◌, ◌≡◌, refl, sym, ap, ◌∙◌, subst, inl, inr, Bool-cases, true_ne_false,
  IsIn, All, contains_cases, sorted_by, All-sorted_by,
}
use railwarden.Config.{WorkPackage, ProjectConfig}
use railwarden.World.{World}
use railwarden.Value.{Fields, Show}
use railwarden.Runtime.{Runtime}
use railwarden.Tasks.{task_for_package}
use railwarden.Scheduler.Dag.{validate_dag}
use railwarden.Scheduler.Classifier.{
  PackageState, ladder, state_of, task_text, unmet_of, is_active, is_nonempty, is_merged,
  merged_ids_of, branch_of, package_worktree, is_dirty, head_if, has_head, branch_has_new_commits,
  key_le, classify_package, classify_each, classify_packages,
}

-- A worker may run on the package, or its branch may be merged.
abbrev pub is_ready : String → Bool
is_ready state = state == "execution_ready" || state == "integration_ready"

ladder_ready :
    (dirty merged active has_commits unmet : Bool)
    → is_ready (ladder dirty merged active has_commits unmet) ≡ true
    → (unmet ≡ false) × (dirty ≡ false) × (merged ≡ false) × (active ≡ false)
unfolding ladder
ladder_ready true merged active has_commits unmet ready = cc
ladder_ready false true active has_commits unmet ready = cc
ladder_ready false false true has_commits unmet ready = cc
ladder_ready false false false true true ready = cc
ladder_ready false false false true false ready = (refl, refl, refl, refl)
ladder_ready false false false false true ready = cc
ladder_ready false false false false false ready = (refl, refl, refl, refl)

unmet_none :
    (merged_ids ds : List String)
    → is_nonempty (unmet_of merged_ids ds) ≡ false
    → All (λ d. contains merged_ids d ≡ true) ds
unfolding unmet_of
unmet_none merged_ids [] e = tt
unmet_none merged_ids (d ∷ ds) e = elim (Bool-cases (contains merged_ids d)) [
  | inl merged ↦ (merged, unmet_none merged_ids ds (rw merged at e))
  | inr open_yet ↦ absurd (true_ne_false (rw open_yet at e))
]

All-IsIn :
    {A : Type 0} (xs ys : List A) → ((x : A) → IsIn x xs → IsIn x ys) → All (λ x. IsIn x ys) xs
All-IsIn [] ys within = tt
All-IsIn (x ∷ xs) ys within = (within x (inl refl), All-IsIn xs ys λ y there. within y (inr there))

module _ (W : World) (show : Show) (config : ProjectConfig) (overrides : Dict String) where
  open W use {State}

  -- What was looked up of a package that waits for nothing: its worktree is not dirty, the task
  -- that `task_for_package` chooses for it is not active, and its dependencies are merged.
  abbrev pub Unblocked : State → Runtime → List String → Dict WorkPackage → PackageState → Type 0
  Unblocked s rt merged_ids packages state =
      (found : WorkPackage) × (task : Option Fields) × IsIn (state.package_id, found) packages
      × (is_dirty W show config overrides s (package_worktree config found) ≡ ok false)
      × (task_for_package show state.package_id rt ≡ ok task)
      × (is_active (task_text show "status" task) ≡ false)
      × (contains merged_ids state.package_id ≡ false)
      × (state.dependencies ≡ found.dependencies)
      × All (λ d. contains merged_ids d ≡ true) found.dependencies

  -- A state that is ready only if its package waits for nothing.
  abbrev pub Sound : State → Runtime → List String → Dict WorkPackage → PackageState → Type 0
  Sound s rt merged_ids packages state =
      is_ready state.state ≡ true → Unblocked s rt merged_ids packages state

  classify_package-Sound :
      (s : State) (rt : Runtime) (merged_ids : List String) (packages : Dict WorkPackage)
      (entry : String × WorkPackage) (state : PackageState)
      → IsIn entry packages
      → classify_package W show config overrides s rt merged_ids entry ≡ ok state
      → Sound s rt merged_ids packages state
  unfolding classify_package state_of
  classify_package-Sound s rt merged_ids packages (package_id, found) state place e =
      let branch = branch_of W show config overrides package_id found in
      let (tip, _, e1) = bind-eq-ok (head_if W show config overrides s branch) _ e in
      let (dirty, looked, e2) =
        bind-eq-ok (is_dirty W show config overrides s (package_worktree config found)) _ e1 in
      let (task, chosen, e3) = bind-eq-ok (task_for_package show package_id rt) _ e2 in
      let has_commits =
        has_head W show config overrides tip
        && branch_has_new_commits W show config overrides s branch config.integration_branch in
      same_state _ e3 λ ready.
        let (unmet, clean, apart, idle) =
          ladder_ready dirty (contains merged_ids package_id)
            (is_active (task_text show "status" task)) has_commits
            (is_nonempty (unmet_of merged_ids found.dependencies)) ready in
        (
          found,
          task,
          place,
          looked ∙ ap ok clean,
          chosen,
          idle,
          apart,
          refl,
          unmet_none merged_ids found.dependencies unmet,
        )
    where
      same_state :
          (p : PackageState)
          → ok p ≡ ok state
          → Sound s rt merged_ids packages p
          → Sound s rt merged_ids packages state
      same_state p e h = let same : p ≡ state = cc in subst (Sound s rt merged_ids packages) same h

  classify_each-Sound :
      (s : State) (rt : Runtime) (merged_ids : List String) (packages entries : Dict WorkPackage)
      (states : List PackageState)
      → All (λ entry. IsIn entry packages) entries
      → classify_each W show config overrides s rt merged_ids entries ≡ ok states
      → All (Sound s rt merged_ids packages) states
  unfolding classify_each
  classify_each-Sound s rt merged_ids packages [] states _ e =
      let same : [] ≡ states = cc in subst (All (Sound s rt merged_ids packages)) same tt
  classify_each-Sound s rt merged_ids packages (entry ∷ entries) states (place, places) e =
      let (state, first, e1) =
        bind-eq-ok (classify_package W show config overrides s rt merged_ids entry) _ e in
      let (rest, later, e2) =
        bind-eq-ok (classify_each W show config overrides s rt merged_ids entries) _ e1 in
      let same : state ∷ rest ≡ states = cc in
      subst (All (Sound s rt merged_ids packages)) same (
        classify_package-Sound s rt merged_ids packages entry state place first,
        classify_each-Sound s rt merged_ids packages entries rest places later,
      )

  merged_ids_of_sound :
      (s : State) (packages : Dict WorkPackage) (merged_ids : List String) (d : String)
      → merged_ids_of W show config overrides s packages ≡ ok merged_ids
      → contains merged_ids d ≡ true
      → (found : WorkPackage) × IsIn (d, found) packages
        × (is_merged W show config overrides s d found ≡ ok true)
  unfolding merged_ids_of contains
  merged_ids_of_sound s [] merged_ids d e h =
      let same : [] ≡ merged_ids = cc in
      absurd (true_ne_false (sym (subst (λ ids. contains ids d ≡ true) (sym same) h)))
  merged_ids_of_sound s ((package_id, found) ∷ packages) merged_ids d e h =
      let (merged, first, e1) =
        bind-eq-ok (is_merged W show config overrides s package_id found) _ e in
      let (rest, later, e2) = bind-eq-ok (merged_ids_of W show config overrides s packages) _ e1 in
      let same : (if merged then package_id ∷ rest else rest) ≡ merged_ids = cc in
      from_rest rest (λ h. merged_ids_of_sound s packages rest d later h) merged first
        (subst (λ ids. contains ids d ≡ true) (sym same) h)
    where
      from_rest :
          (rest : List String)
          → (contains rest d ≡ true
              → (p : WorkPackage) × IsIn (d, p) packages
                × (is_merged W show config overrides s d p ≡ ok true))
          → (merged : Bool) → is_merged W show config overrides s package_id found ≡ ok merged
          → contains (if merged then package_id ∷ rest else rest) d ≡ true
          → (p : WorkPackage) × IsIn (d, p) ((package_id, found) ∷ packages)
            × (is_merged W show config overrides s d p ≡ ok true)
      from_rest rest induct false first h = let (p, place, e) = induct h in (p, inr place, e)
      from_rest rest induct true first h = elim (contains_cases d package_id rest h) [
        | inl same ↦ (
          found,
          inl (ap (λ id. (id, found)) same),
          subst (λ id. is_merged W show config overrides s id found ≡ ok true) (sym same) first,
        )
        | inr later ↦ let (p, place, e) = induct later in (p, inr place, e)
      ]

  -- The package that is ready, from what git and the ledger say of it.
  abbrev pub ReadySound : State → Runtime → Dict WorkPackage → PackageState → Type 0
  ReadySound s rt packages state =
      is_ready state.state ≡ true
      → (found : WorkPackage) × (task : Option Fields) × IsIn (state.package_id, found) packages
        × (is_dirty W show config overrides s (package_worktree config found) ≡ ok false)
        × (task_for_package show state.package_id rt ≡ ok task)
        × (is_active (task_text show "status" task) ≡ false)
        × All
            (λ d.
              (p : WorkPackage) × IsIn (d, p) packages
              × (is_merged W show config overrides s d p ≡ ok true))
            found.dependencies

  All-map :
      {A : Type 0} {P Q : A → Type 0} (xs : List A) → ((x : A) → P x → Q x) → All P xs → All Q xs
  All-map [] f all = tt
  All-map (x ∷ xs) f (first, rest) = (f x first, All-map xs f rest)

  -- `classify_packages` calls a package "execution_ready" or "integration_ready" only if it is a
  -- package of the plan, git finds no change of a tracked file in its worktree (if that is there
  -- and usable), the task that `task_for_package` chooses for it is not active, and each of its
  -- dependencies is a package of the plan whose branch git has merged into the integration branch.
  pub classify_packages-ReadySound :
      (s : State) (rt : Runtime) (packages : Dict WorkPackage) (states : List PackageState)
      → classify_packages W show config overrides s rt packages ≡ ok states
      → All (ReadySound s rt packages) states
  unfolding classify_packages
  classify_packages-ReadySound s rt packages states e =
      let (_, _, e1) = bind-eq-ok (validate_dag packages) _ e in
      let (merged_ids, found, e2) =
        bind-eq-ok (merged_ids_of W show config overrides s packages) _ e1 in
      let places =
        All-sorted_by (λ entry. IsIn entry packages) (key_le W show config overrides) packages
          (All-IsIn packages packages λ x there. there) in
      All-map states
        (λ state sound ready.
          let (p, task, place, clean, chosen, idle, _, _, met) = sound ready in
          (
            p,
            task,
            place,
            clean,
            chosen,
            idle,
            All-map p.dependencies
                (λ d merged. merged_ids_of_sound s packages merged_ids d found merged) met,
          ))
        (classify_each-Sound s rt merged_ids packages
          (sorted_by (key_le W show config overrides) packages) states places e2)
