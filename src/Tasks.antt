-- ===== src/Tasks.antt =====
-- runtime/tasks.py and tasks/file_backend.py: the task ledger. A task is a dict, and the tasks
-- stand in one file in the order of creation. A function that mutates the dict it is given
-- returns the new dict.
pub mod Ledger
pub mod Lifecycle
pub mod Choice
pub mod Effect
pub mod Refined
use railwarden.Base.{
  ℕ, String, ◌<>◌, ◌==◌, starts_with, Bool, true, false, not, ◌&&◌, ◌||◌, Option, none, some, List,
  [], ◌∷◌, ◌++◌, Result, ok, err, value_error, runtime_error, key_error, contains, sorted_by,
  text_le, ltb, nat_eq, if◌then◌else◌,
}
use railwarden.Value.{
  Value, null, num, str, arr, obj, Items, nil, Fields, end, field, get, get_or, put, update, texts,
  items_of, dicts, Show, to_str, text_of,
}
use railwarden.Runtime.{Runtime, Action, ◌>>=◌, ◌>>◌, pure, gets, modify, refuse, append_event}

abbrev pub task_states : List String
task_states =
    "planned" ∷ "ready" ∷ "assigned" ∷ "running" ∷ "handoff_needed" ∷ "cooldown_wait"
    ∷ "decision_required" ∷ "validating" ∷ "validated" ∷ "review_ready" ∷ "reviewing"
    ∷ "review_passed" ∷ "merge_ready" ∷ "merge_approved" ∷ "integration_ready" ∷ "integrating"
    ∷ "merged" ∷ "rejected" ∷ "blocked" ∷ "failed" ∷ []

abbrev pub terminal_task_states : List String
terminal_task_states = "merged" ∷ "rejected" ∷ []

abbrev pub active_task_states : List String
active_task_states =
    "ready" ∷ "assigned" ∷ "running" ∷ "handoff_needed" ∷ "cooldown_wait" ∷ "validating"
    ∷ "validated" ∷ "review_ready" ∷ "reviewing" ∷ "review_passed" ∷ "merge_ready"
    ∷ "merge_approved" ∷ "integrating" ∷ "review" ∷ "blocked" ∷ "scheduled" ∷ "todo" ∷ "triage" ∷ []

unfoldable pub task_id_for_package : String → String
task_id_for_package package_id = "task-" <> package_id

-- `raw`, which must be a list
abbrev task_list : Value → Result (List Fields)
task_list (arr items) = ok (dicts items)
task_list _ = err (runtime_error ("Invalid task state: " ∷ "state/tasks.json" ∷ []))

abbrev tasks_in : Value → Result (List Fields)
tasks_in (obj d) = task_list (get_or "tasks" (arr nil) d)
tasks_in v = task_list v

-- `FileTaskBackend.list_tasks_compat`, which `load_tasks` calls
unfoldable pub load_tasks : Runtime → Result (List Fields)
load_tasks rt = elim rt.tasks_file [ none ↦ ok [] | some v ↦ tasks_in v ]

unfoldable pub save_tasks : List Fields → Runtime → Runtime
save_tasks tasks rt = record rt {
  tasks_file = some (obj (field "tasks" (arr (items_of tasks)) end));
}

-- `value == text`
unfoldable pub is_text : Option Value → String → Bool
is_text (some (str s)) t = s == t
is_text _ t = false

-- The `for ... else` of `upsert_task`: the first task with the id is replaced.
unfoldable pub replace_task : String → Fields → List Fields → List Fields
replace_task id updated [] = updated ∷ []
replace_task id updated (t ∷ ts) =
    if is_text (get "id" t) id then updated ∷ ts else t ∷ replace_task id updated ts

-- The loop of `ensure_task`.
unfoldable pub find_task : String → String → List Fields → Option Fields
find_task id package_id [] = none
find_task id package_id (t ∷ ts) =
    if is_text (get "id" t) id || is_text (get "package_id" t) package_id
    then some t
    else find_task id package_id ts

abbrev pub new_task : ℕ → String → String → List String → Fields
new_task now package_id name dependencies = field "id" (str (task_id_for_package package_id)) (
    field "package_id" (str package_id) (
      field "title" (str (package_id <> " " <> name)) (
        field "status" (str "planned") (
          field "dependencies" (arr (texts dependencies)) (
            field "attempt" (num 0)
              (field "created_at" (num now) (field "updated_at" (num now) end)))))))

-- The rest of `ensure_task`, from what its loop found.
unfoldable pub ensure_in :
    String → String → List String → List Fields → Option Fields → Action Fields
unfolding append_event
ensure_in package_id name dependencies tasks (some task) rt = pure task rt
ensure_in package_id name dependencies tasks none rt =
    let task = new_task rt.clock package_id name dependencies in
    (do
      modify (save_tasks (tasks ++ (task ∷ [])))
      append_event "task_created" (field "status" (str "planned") end)
          (some (task_id_for_package package_id))
      pure task)
      rt

unfoldable pub ensure_task : String → String → List String → Action Fields
unfolding ensure_in
ensure_task package_id name dependencies = do
  tasks ← gets load_tasks
  ensure_in package_id name dependencies tasks
      (find_task (task_id_for_package package_id) package_id tasks)

module _ (show : Show) where
  unfoldable pub upsert_task : Fields → Action Fields
  upsert_task updated = do
    tasks ← gets load_tasks
    id ← elim (get "id" updated) [
      | none ↦ λ rt. (err (key_error ("id" ∷ [])), rt)
      | some v ↦ pure (to_str show v)
    ]
    modify (save_tasks (replace_task id updated tasks))
    pure updated

  -- The dict that `transition_task` writes.
  abbrev pub moved : ℕ → String → Fields → Fields → Fields
  moved now status payload task =
      update (put "updated_at" (num now) (put "status" (str status) task)) payload

  -- `payload or {}` is the argument `payload`.
  unfoldable pub transition_task : Fields → String → Fields → Action Fields
  unfolding upsert_task append_event
  transition_task task status payload = do
    refuse (not (contains task_states status)) (value_error ("Unknown task status: " ∷ status ∷ []))
    let old = to_str show (get_or "status" (str "") task)
    refuse (contains terminal_task_states old && not (status == old))
        (value_error ("Cannot transition terminal task from " ∷ old ∷ " to " ∷ status ∷ []))
    now ← gets (λ rt. ok rt.clock)
    let task' = moved now status payload task
    upsert_task task'
    append_event "task_transition"
        (update (field "from" (str old) (field "to" (str status) end)) payload)
        (some (text_of show "id" task'))
    pure task'

  -- `FileTaskBackend.task_for_package`
  unfoldable pub priority : String → ℕ
  priority status =
      if status == "running"
      then 0
      else if status == "ready"
      then 1
      else if status == "validating" || status == "review"
      then 2
      else if status == "review_ready" || status == "blocked"
      then 3
      else if status == "reviewing" || status == "todo"
      then 4
      else if status == "review_passed" || status == "scheduled"
      then 5
      else if status == "merge_ready" || status == "triage"
      then 6
      else if status == "merge_approved" || status == "done"
      then 7
      else if status == "archived"
      then 8
      else 99

  unfoldable pub belongs : String → Fields → Bool
  belongs package_id task =
      to_str show (get_or "package_id" (str "") task) == package_id
      || starts_with (to_str show (get_or "title" (str "") task)) (package_id <> " ")

  -- The order of the sort keys `(priority, id)`.
  unfoldable pub before : Fields → Fields → Bool
  before t u =
      let p = priority (text_of show "status" t) in
      let q = priority (text_of show "status" u) in
      ltb p q
      || nat_eq p q
        && text_le (to_str show (get_or "id" (str "") t)) (to_str show (get_or "id" (str "") u))

  unfoldable pub matching : String → List Fields → List Fields
  unfolding belongs
  matching package_id [] = []
  matching package_id (t ∷ ts) =
      let rest = matching package_id ts in if belongs package_id t then t ∷ rest else rest

  abbrev pub first : List Fields → Option Fields
  first [] = none
  first (t ∷ _) = some t

  unfoldable pub task_for_package : String → Runtime → Result (Option Fields)
  unfolding matching sorted_by before load_tasks
  task_for_package package_id rt = elim (load_tasks rt) [
    | err e ↦ err e
    | ok tasks ↦ ok (first (sorted_by before (matching package_id tasks)))
  ]
