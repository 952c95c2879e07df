-- ===== src/Examples/Tasks.antt =====
-- A ledger with one merged task and one that is running.
use railwarden.Base.{String, Option, List, [], ◌∷◌, ◌≡◌, refl, ok, err, value_error, contains}
use railwarden.Value.{
  str, Fields, end, field, get, Show, to_str, items_of, dicts, put, update, text_of,
}
use railwarden.Value.Laws.{has}
use railwarden.Runtime.{Runtime, empty}
use railwarden.Tasks.{
  load_tasks, save_tasks, is_text, ensure_task, find_task, task_id_for_package, moved,
  transition_task, task_for_package,
}
use railwarden.Tasks.Ledger.{
  task_with, after_transition, transition_task-refused, ensure_task-twice,
}
use railwarden.Tasks.Effect.{Effect, transition_task-Effect}
use railwarden.Tasks.Lifecycle.{
  Holds, here, next, Step, transition, ensure, terminal-Reach, stale_copy-overwrites,
}
use railwarden.Tasks.Refined.{Follows, view, Step-Follows}
use railwarden.Tasks.Choice.{Chosen, task_for_package-Chosen}

abbrev show : Show
show v = "?"

abbrev done_task : Fields
done_task =
    field "id" (str "task-P1") (field "package_id" (str "P1") (field "status" (str "merged") end))

abbrev live_task : Fields
live_task =
    field "id" (str "task-P2") (field "package_id" (str "P2") (field "status" (str "running") end))

abbrev both : List Fields
both = done_task ∷ live_task ∷ []

abbrev start : Runtime
start = save_tasks both (empty 7)

start_loaded : load_tasks start ≡ ok both
unfolding load_tasks save_tasks get items_of dicts
start_loaded = refl

start-Holds : Holds show "task-P1" "merged" start
unfolding task_with is_text get to_str
start-Holds = record {
  tasks = both;
  loaded = start_loaded;
  ledger = (("task-P1", refl, refl), (("task-P2", refl, refl), tt));
  task = done_task;
  stored = refl;
  standing = refl;
}

validating : Step show start (transition_task show live_task "validating" end start).1
unfolding task_with is_text get has
validating = transition "task-P2" "validating" live_task end both start_loaded refl refl refl

resurrect :
    Step show
      (transition_task show live_task "validating" end start).1
      (ensure_task "P3" "third" [] (transition_task show live_task "validating" end start).1).1
resurrect = ensure "P3" "third" []

terminal-Reach_example :
    Holds show "task-P1" "merged"
      (ensure_task "P3" "third" [] (transition_task show live_task "validating" end start).1).1
unfolding contains
terminal-Reach_example =
    terminal-Reach show "task-P1" "merged" refl start-Holds (next (next here validating) resurrect)

stale_copy-overwrites_example :
    Holds show "task-P1" "ready"
      (transition_task show (put "status" (str "running") done_task) "ready" end start).1
unfolding contains to_str get put
stale_copy-overwrites_example =
    stale_copy-overwrites show "task-P1" "merged" "ready" (put "status" (str "running") done_task)
      start start-Holds refl refl refl

transition_task-refused_example :
    (message : List String) × (transition_task show done_task "ready" end start
      ≡ (err (value_error message), start))
unfolding contains to_str get
transition_task-refused_example = transition_task-refused show done_task end "ready" start refl

transition_task-Effect_example :
    Effect show both start live_task "task-P2" "validating" end
      (moved show 7 "validating" end live_task)
      (after_transition show live_task "validating" end "task-P2" both start)
unfolding transition_task to_str get put update has save_tasks task_with is_text contains load_tasks
    dicts text_of items_of
transition_task-Effect_example =
    transition_task-Effect show live_task end live_task (moved show 7 "validating" end live_task)
      "validating" "task-P2" both start
      (after_transition show live_task "validating" end "task-P2" both start) start_loaded
      (("task-P1", refl, refl), (("task-P2", refl, refl), tt)) refl refl refl refl

ensure_task-twice_example : ensure_task "P1" "other" ("P2" ∷ []) start ≡ (ok done_task, start)
unfolding ensure_task find_task is_text get load_tasks save_tasks items_of dicts task_id_for_package
ensure_task-twice_example =
    ensure_task-twice "P1" "first" "other" [] ("P2" ∷ []) both done_task start start start_loaded
      refl

task_for_package-Chosen_example :
    (o : Option Fields) × (task_for_package show "P2" start ≡ ok o) × Chosen show "P2" both o
task_for_package-Chosen_example = task_for_package-Chosen show "P2" both start start_loaded

Step-Follows_example :
    Follows show (view show both) (transition_task show live_task "validating" end start).1
unfolding task_with is_text get
Step-Follows_example =
    Step-Follows show both start (transition_task show live_task "validating" end start).1
      start_loaded (("task-P1", refl, refl), (("task-P2", refl, refl), tt)) validating
