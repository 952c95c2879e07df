-- ===== src/Tasks/Refined.antt =====
-- The ledger as a client may think of it: a map from ids to statuses, with three kinds of step.
use railwarden.Base.{
  ℕ, String, ◌==◌, eq_iff, Bool, true, false, Bool-cases, Option-cases, Option, none, some, List,
  ◌∷◌, [], ◌++◌, ok, ◌≡◌, refl, sym, ap, subst, ◌∙◌, contains, inl, inr, arith, if◌then◌else◌,
}
use railwarden.Value.{Fields, str, get, Show, to_str}
use railwarden.Value.Laws.{has}
use railwarden.Runtime.{Runtime}
use railwarden.Tasks.{
  task_states, terminal_task_states, task_id_for_package, load_tasks, find_task, new_task,
  ensure_task, moved, transition_task, replace_task,
}
use railwarden.Tasks.Ledger.{
  task_with, IsLedger, status_of, allowed, transition_task-refused, transition_task_written,
  task_with-replace_task, replace_task-IsLedger, get-moved_id, ensure_task_found,
  ensure_task_created, load_tasks-after_transition, load_tasks-after_creation, task_with_snoc,
  created-IsLedger, task_with_id, status_of-moved, find_task-eq-none, get-new_task,
}
use railwarden.Tasks.Lifecycle.{Step, transition, ensure}

-- The statuses of the tasks by their ids; the order and the other fields are forgotten.
abbrev pub StatusMap : Type 0
StatusMap = String → Option String

-- A step of the specification: a task is created with the status "planned" under an id that has
-- none, a task moves to a known status, which for a terminal one is the same, or nothing happens.
pub data SpecStep (before after : StatusMap) : Type 0 where
  creates :
      (id : String)
      → before id ≡ none
      → ((j : String) → after j ≡ (if id == j then some "planned" else before j))
      → SpecStep before after
  moves :
      (id old new : String)
      → before id ≡ some old
      → contains task_states new ≡ true
      → (contains terminal_task_states old ≡ true → new ≡ old)
      → ((j : String) → after j ≡ (if id == j then some new else before j))
      → SpecStep before after
  stays : ((j : String) → after j ≡ before j) → SpecStep before after

module _ (show : Show) where
  abbrev status_in : Option Fields → Option String
  status_in none = none
  status_in (some task) = some (status_of show task)

  abbrev pub view : List Fields → StatusMap
  view tasks id = status_in (task_with id tasks)

  -- A runtime directory with a ledger that a step of the specification leads to.
  pub record Follows (before : StatusMap) (rt : Runtime) : Type 0 where
    pub tasks : List Fields
    pub loaded : load_tasks rt ≡ ok tasks
    pub ledger : IsLedger tasks
    pub step : SpecStep before (view tasks)

  moved-view :
      (i target : String) (task : Fields) (tasks : List Fields)
      → get "id" task ≡ some (str i)
      → status_of show task ≡ target
      → IsLedger tasks
      → (j : String)
      → view (replace_task i task tasks) j ≡ (if i == j then some target else view tasks j)
  moved-view i target task tasks id_of standing ledger j =
      ap status_in (task_with-replace_task i j task tasks id_of ledger)
      ∙ elim (Bool-cases (i == j)) [
        | inl same ↦ rw same (ap some standing)
        | inr differ ↦ rw differ
      ]

  created_if :
      (o : Option Fields) (b : Bool) (task : Fields)
      → (b ≡ true → o ≡ none)
      → status_of show task ≡ "planned"
      → status_in (elim o [ none ↦ (if b then some task else none) | some u ↦ some u ])
        ≡ (if b then some "planned" else status_in o)
  created_if none true task absent planned = ap some planned
  created_if none false task absent planned = refl
  created_if (some u) true task absent planned = let e = absent refl in absurd (cc)
  created_if (some u) false task absent planned = refl

  created-view :
      (i : String) (task : Fields) (tasks : List Fields)
      → get "id" task ≡ some (str i)
      → status_of show task ≡ "planned"
      → task_with i tasks ≡ none
      → (j : String)
      → view (tasks ++ (task ∷ [])) j ≡ (if i == j then some "planned" else view tasks j)
  created-view i task tasks id_of planned absent j =
      ap status_in (task_with_snoc j i task tasks id_of)
      ∙ created_if (task_with j tasks) (i == j) task
          (λ same. ap (λ k. task_with k tasks) (sym ((eq_iff i j).0 same)) ∙ absent) planned

  transition-Follows :
      (i target : String) (task payload : Fields) (tasks : List Fields) (rt : Runtime)
      → load_tasks rt ≡ ok tasks
      → IsLedger tasks
      → task_with i tasks ≡ some task
      → has "id" payload ≡ false
      → has "status" payload ≡ false
      → Follows (view tasks) (transition_task show task target payload rt).1
  transition-Follows i target task payload tasks rt loaded ledger stored hi hs =
      elim (Bool-cases (allowed show (status_of show task) target)) [
        | inl fine ↦
            let id_of = task_with_id i task tasks stored in
            let m = moved show rt.clock target payload task in
            let m_id = get-moved_id show rt.clock target payload task hi ∙ id_of in
            rw (transition_task_written show task payload target i tasks rt loaded id_of hi fine)
              (record {
                tasks = replace_task i m tasks;
                loaded = load_tasks-after_transition show task payload target i tasks rt;
                ledger = replace_task-IsLedger i m tasks m_id ledger;
                step =
                    moves i (status_of show task) target (ap status_in stored)
                      (known (status_of show task) target fine)
                      (kept (status_of show task) target fine)
                      (moved-view i target m tasks m_id
                        (status_of-moved show rt.clock target payload task hs) ledger);
              })
        | inr refused ↦
            let (_, e) = transition_task-refused show task payload target rt refused in
            rw e
              (record { tasks = tasks; loaded = loaded; ledger = ledger; step = stays λ j. refl })
      ]
    where
      known : (old new : String) → allowed show old new ≡ true → contains task_states new ≡ true
      known old new fine = ground arith

      kept :
          (old new : String)
          → allowed show old new ≡ true
          → contains terminal_task_states old ≡ true
          → new ≡ old
      kept old new fine terminal = ground (arith, eq_iff new old)

  planned_new :
      (now : ℕ) (package_id name : String) (dependencies : List String)
      → status_of show (new_task now package_id name dependencies) ≡ "planned"
  unfolding get to_str
  planned_new now package_id name dependencies = refl

  ensure-Follows :
      (package_id name : String) (dependencies : List String) (tasks : List Fields) (rt : Runtime)
      → load_tasks rt ≡ ok tasks
      → IsLedger tasks
      → Follows (view tasks) (ensure_task package_id name dependencies rt).1
  ensure-Follows package_id name dependencies tasks rt loaded ledger =
      elim (Option-cases (find_task (task_id_for_package package_id) package_id tasks)) [
        | inl absent ↦
            let task = new_task rt.clock package_id name dependencies in
            let id = task_id_for_package package_id in
            let none_there = find_task-eq-none id package_id tasks absent in
            rw (ensure_task_created package_id name dependencies tasks rt loaded absent) (record {
              tasks = tasks ++ (task ∷ []);
              loaded = load_tasks-after_creation package_id name dependencies tasks rt;
              ledger = created-IsLedger rt.clock package_id name dependencies tasks absent ledger;
              step = creates id (ap status_in none_there) (
                  created-view id task tasks (get-new_task rt.clock package_id name dependencies)
                    (planned_new rt.clock package_id name dependencies) none_there);
            })
        | inr (t, found) ↦
            rw (ensure_task_found package_id name dependencies tasks t rt loaded found)
              (record { tasks = tasks; loaded = loaded; ledger = ledger; step = stays λ j. refl })
      ]

  -- Every step of a client, a refused transition included, in a runtime directory that holds a
  -- ledger, leads to one that holds a ledger again, by a step of the specification on the map
  -- from ids to statuses.
  pub Step-Follows :
      (tasks : List Fields) (rt rt' : Runtime)
      → load_tasks rt ≡ ok tasks
      → IsLedger tasks
      → Step show rt rt'
      → Follows (view tasks) rt'
  Step-Follows tasks rt _ loaded ledger
        (transition id status task payload others read stored hi hs) =
      let same : others ≡ tasks = cc (loaded, read) in
      transition-Follows id status task payload tasks rt loaded ledger
        (subst (λ ts. task_with id ts ≡ some task) same stored) hi hs
  Step-Follows tasks rt _ loaded ledger (ensure package_id name dependencies) =
      ensure-Follows package_id name dependencies tasks rt loaded ledger
