-- ===== src/Examples/Controller.antt =====
-- A tick over a runtime directory with the context files filled in.
use railwarden.Base.{
  ℕ, suc, Bool, Bool-cases, inl, inr, subst, eq_iff, String, ◌==◌, true, false, Option, none, some,
  List, [], ◌∷◌, length, Dict, Result, ok, err, contains, ◌≡◌, refl, ◌⊎◌, if◌then◌else◌,
}
use railwarden.Config.{ProjectFiles, WorkPackage, new_package}
use railwarden.Value.{
  dicts, update, obj, arr, num, str, flag, texts, items_of, Fields, field, end, get, to_str,
}
use railwarden.Runtime.{Runtime, empty}
use railwarden.Tasks.{load_tasks, save_tasks}
use railwarden.World.{World, Reply, directory, run_git}
use railwarden.Integration.{Candidate}
use railwarden.Providers.Adapters.{ProviderAdapter, adapter}
use railwarden.Scheduler.Dag.{validate_dag}
use railwarden.Engine.Outside.{Sys}
use railwarden.Engine.Checkpoint.{CheckpointResult, staged_files, create_checkpoint_commit}
use railwarden.Engine.Checkpoint.Staged.{Checked, create_checkpoint_commit-Checked}
use railwarden.Engine.Results.{Source, completed}
use railwarden.Engine.Results.Completed.{Complete, completed-Complete}
use railwarden.Engine.Supervisor.{decide_task}
use railwarden.Engine.Supervisor.Permitted.{Permitted}
use railwarden.Engine.Integrate.{merge_and_settle}
use railwarden.Engine.Integrate.Merges.{Settled, integrated_state, merge_and_settle-Settled}
use railwarden.Engine.Launch.{Machine}
use railwarden.Engine.Tick.{TickResult, waiting, controller_tick, plan_is_approved}
use railwarden.Engine.Tick.Bounded.{Worked, controller_tick-Worked}
use railwarden.Examples.State.{project}
use railwarden.Examples.Agents.{outside, with_session}

abbrev replied : String → Reply
replied text = record { returncode = 0; stdout = text; stderr = "" }

-- A worktree that is on the branch of its task; every commit is "c1".
abbrev asked_git : List String → Reply
asked_git [] = replied ""
asked_git (c ∷ more) =
    if c == "branch"
    then replied "railwarden/a"
    else if c == "diff"
    then replied "src/a.py"
    else if c == "rev-parse"
    then replied "c1"
    else replied ""

abbrev world : World
world = record {
  State = ℕ;
  query = λ s root arguments. asked_git arguments;
  command = λ s root arguments. (suc s, replied "");
  kind = λ s path. directory;
  unlink = λ s path. s;
  rmdir = λ s path. none;
  rmtree = λ s path. s;
  execute = λ s cwd argv. (suc s, some (replied "fine"));
  inside = λ s root cwd. true;
}

abbrev package_a : WorkPackage
package_a = record (new_package "a" "first" "Build it") {
  owned_paths = "src" ∷ [];
  context_refs = "context/ARCHITECTURE.md" ∷ [];
}

abbrev files : ProjectFiles
files = record { project = project; packages = ("a", package_a) ∷ []; validation = [] }

abbrev machine : Machine
machine = record {
  launcher = record {
    spawn = λ command. some (7, 7);
    pane_alive = λ pane. false;
    send_keys = λ pane script. false;
  };
  resolve = λ path. path;
  models = [];
  installed = "/lib/worker_task_prompt.md";
}

abbrev sys : Runtime → Sys world
sys rt = record { rt = rt; repo = 0 }

abbrev got {ℓ} : {A : Type ℓ} → A → Result A → A
got default (ok a) = a
got default (err _) = default

-- A task whose package was removed, and one that waits for a worker.
abbrev orphan : Fields
orphan =
    field "id" (str "task-z") (
      field "package_id" (str "z") (field "title" (str "z old") (field "status" (str "ready") end)))

abbrev waiting_a : Fields
waiting_a = field "id" (str "task-a") (
    field "package_id" (str "a")
      (field "title" (str "a first") (field "status" (str "ready") (field "attempt" (num 0) end))))

abbrev with_orphan : Runtime
with_orphan = record with_session {
  tasks_file = some (obj (field "tasks" (arr (items_of (orphan ∷ waiting_a ∷ []))) end));
}

abbrev adapters : Dict ProviderAdapter
adapters = ("codex", adapter "codex" "codex" "gpt-5.5" (some "high")) ∷ []

-- An approved plan, and context files that say something.
abbrev ready_to_work : Runtime
ready_to_work = record with_orphan {
  pending_plan = some (obj (field "approved" (flag true) end));
  text_files =
      ("/repo/context/PROJECT_CONTEXT.md", "A project.")
      ∷ ("/repo/context/ARCHITECTURE.md", "Two parts.")
      ∷ ("/repo/context/PRODUCT_INVARIANTS.md", "None is broken.")
      ∷ ("/repo/context/SECURITY_MODEL.md", "Local.")
      ∷ ("/repo/context/TEST_STRATEGY.md", "Run all.")
      ∷ ("/repo/context/CONTRIBUTING_AGENTS.md", "Read first.")
      ∷ [];
}

abbrev no_packages : ProjectFiles
no_packages = record files { packages = [] }

abbrev ticking : Result TickResult × Sys world
ticking = controller_tick world outside no_packages machine [] none true false (sys ready_to_work)

controller_tick-Worked_example :
    (length (got (waiting "") ticking.0).launched ≡ 0)
    ⊎ ((plan_is_approved project ready_to_work ≡ true)
        × Worked world outside no_packages machine [] none true false
            (sys ready_to_work)
            (got (waiting "") ticking.0))
unfolding controller_tick items_of dicts update validate_dag save_tasks
controller_tick-Worked_example =
    controller_tick-Worked world outside no_packages machine [] none true false (sys ready_to_work)
      ticking.1 (got (waiting "") ticking.0) refl

-- A worktree in whose index a foreign file may stand beside an owned one. A restore of the owned
-- one fails, and every other restore takes the foreign one out.
abbrev asked_index : Bool → List String → Reply
asked_index both [] = replied ""
asked_index both (c ∷ more) =
    if c == "diff"
    then replied (if both then "src/a.py\nnotes.md" else "src/a.py")
    else asked_git (c ∷ more)

abbrev restored_index : Bool → List String → Bool × Reply
restored_index both (c ∷ x ∷ y ∷ items) =
    if c == "restore"
    then if contains items "src/a.py"
      then (both, record { returncode = 1; stdout = ""; stderr = "locked" })
      else (false, replied "")
    else (both, replied "")
restored_index both _ = (both, replied "")

abbrev indexed : World
indexed = record {
  State = Bool;
  query = λ s root arguments. asked_index s arguments;
  command = λ s root arguments. restored_index s arguments;
  kind = λ s path. directory;
  unlink = λ s path. s;
  rmdir = λ s path. none;
  rmtree = λ s path. s;
  execute = λ s cwd argv. (s, some (replied "fine"));
  inside = λ s root cwd. true;
}

restored_items :
    (s t : Bool) (reply : Reply) (items after : List String) (item : String)
    → run_git indexed "/wt/a" ("restore" ∷ "--staged" ∷ "--" ∷ items) s ≡ (ok reply, t)
    → staged_files indexed outside project t "/wt/a" ≡ ok after
    → contains items item ≡ true
    → contains after item ≡ false
unfolding run_git staged_files contains
restored_items s t reply items after item ran listed there =
    elim (Bool-cases (contains items "src/a.py")) [
      | inl owned ↦ let ran' = rw owned at ran in absurd (cc (ran'))
      | inr foreign ↦
          let ran' = rw foreign at ran in
          let here : t ≡ false = cc (ran') in
          let listed' =
            subst (λ u. staged_files indexed outside project u "/wt/a" ≡ ok after) here listed in
          let same : "src/a.py" ∷ [] ≡ after = cc (listed') in
          subst (λ xs. contains xs item ≡ false) same (other foreign)
    ]
  where
    other : contains items "src/a.py" ≡ false → contains ("src/a.py" ∷ []) item ≡ false
    other foreign = elim (Bool-cases (item == "src/a.py")) [
      | inl same ↦
          let owned =
            subst (λ i. contains items i ≡ true) ((eq_iff item "src/a.py").0 same) there in
          absurd (cc (owned, foreign))
      | inr differ ↦ rw differ refl
    ]

abbrev checkpoint_of : Result CheckpointResult → List String
checkpoint_of (ok checkpoint) = checkpoint.files
checkpoint_of (err e) = []

abbrev checking : Result CheckpointResult × Sys indexed
checking =
    create_checkpoint_commit indexed outside project "task-a" "/wt/a" 1 ("src" ∷ [])
      (record { rt = empty 5; repo = true })

create_checkpoint_commit-Checked_example :
    Checked indexed outside project "/wt/a"
      ("src" ∷ [])
      (record { rt = empty 5; repo = true })
      checking.0
      checking.1
create_checkpoint_commit-Checked_example =
    create_checkpoint_commit-Checked indexed outside project "/wt/a" restored_items "task-a" 1
      ("src" ∷ []) (record { rt = empty 5; repo = true }) checking.1 checking.0 refl refl

-- The foreign file is not among those of the checkpoint.
checkpoint_files : checkpoint_of checking.0 ≡ "src/a.py" ∷ []
unfolding create_checkpoint_commit contains
checkpoint_files = refl

abbrev task_a : Fields
task_a = field "id" (str "task-a") (
    field "package_id" (str "a") (
      field "status" (str "decision_required") (
        field "provider" (str "codex") (
          field "failure_kind" (str "missing_worker_result") (
            field "allowed_actions" (arr (texts ("retry_same_provider" ∷ "ask_user" ∷ []))) end)))))

abbrev deciding : Result Fields × Sys world
deciding = decide_task world outside files task_a package_a (sys with_session)

abbrev branch_a : Candidate
branch_a = record { package_id = "a"; branch = "railwarden/a"; head = "c1" }

abbrev merging : Result (Option Fields) × Sys world
merging = merge_and_settle world outside files branch_a (some task_a) (sys with_session)

merge_and_settle-Settled_example :
    Settled world outside files "task-a"
      (integrated_state world outside files branch_a (sys with_session)).0
      (integrated_state world outside files branch_a (sys with_session)).1
      (got none merging.0)
      merging.1
unfolding merge_and_settle get load_tasks save_tasks contains to_str update
merge_and_settle-Settled_example =
    merge_and_settle-Settled world outside files branch_a "task-a" task_a (sys with_session)
      merging.1 (got none merging.0) refl refl

abbrev source_a : Source
source_a = record {
  task_id = "task-a";
  workspace = "work/a";
  provider = "codex";
  model = "m";
  branch = "railwarden/a";
  source_path = "work/a/.railwarden-results/task-a.json";
  runtime_path = "runtime/results/task-a.json";
}

abbrev reported_success : Fields
reported_success = field "status" (str "success") (field "summary" (str "fine") end)

abbrev normalized : Fields
unfolding completed
normalized = elim (completed world outside project 0 source_a true reported_success) [
  | ok result ↦ result
  | err e ↦ end
]

completed-Complete_example : Complete normalized
unfolding completed normalized
completed-Complete_example =
    completed-Complete world outside project 0 source_a true reported_success normalized refl
