-- ===== src/Lib.antt =====
-- railwarden: what the orchestrator promises of the work packages that it hands to code agents.
--
-- RailWarden reads a plan of work packages, gives each package to an agent in a git worktree of its
-- own, checks what the agent reports, validates and reviews the commit, and merges the branches one
-- at a time. Its controller keeps every fact in files of the runtime directory: the ledger of tasks,
-- an event log, the health of each provider, workflow checkpoints, decisions and evidence. The parts
-- interact through these files and through git: the classifier reads both and says which package is
-- ready, the plan assigns workers, the worktree is provisioned, the worker's result is checked against
-- the worktree, the review looks at the evidence of the validation, and the integration manager
-- merges and validates. One round of all this is a tick of the controller: it ends cooldowns, brings
-- the ledger up to date with git, looks at the processes of the active tasks, lets the supervisor
-- answer the failures, integrates one package and starts tasks while there are slots. The agents of
-- a session say which model a provider runs, and whether it is paused.
--
-- Files, with the code from the repository's root:
-- - Scheduler/Dag: src/railwarden/scheduler/dag.py (validate_dag, topological).
-- - Scheduler/Classifier, with Plan: src/railwarden/scheduler/classifier.py (classify_packages,
--   execution_plan).
-- - Tasks: src/railwarden/runtime/tasks.py and src/railwarden/tasks/file_backend.py.
-- - Runtime: the runtime directory as a record, and src/railwarden/runtime/events.py.
-- - World: src/railwarden/git.py, over a parameter for git, the file system and the commands.
-- - Worktrees: src/railwarden/provisioning/worktrees.py (ensure_worktree).
-- - Validation/Paths, Runner, Review, WorkerResult, Package, Commands: the files of
--   src/railwarden/validation/ with these names (paths.py, runner.py, review.py, worker_result.py,
--   package.py, commands.py). Freeze and Contract are the checks and the owned paths of contract.py;
--   Shell is shlex.split, which Commands calls.
-- - Integration: src/railwarden/integration/manager.py (integrate_one).
-- - Providers/Health, Providers/Adapters: src/railwarden/providers/health.py and adapters.py.
-- - Processes: src/railwarden/processes/supervisor.py (launch_managed) and tmux_runner.py (the choice
--   of a pane, launch_tmux_managed).
-- - Agents/ModelRefs, Agents/Session with Json and Store, Agents/Quota: model_refs.py, session.py and
--   quota.py of src/railwarden/runtime/.
-- - Workflow, Decisions: src/railwarden/runtime/workflow.py and decisions.py.
-- - Engine: src/railwarden/engine/controller.py. Engine.antt has the choice of providers, the process
--   records and the hydration of tasks; Engine/Agents the agents and their health; Engine/Supervisor
--   _default_supervisor_decisions; Engine/Judgement and Engine/Reconcile reconcile_processes;
--   Engine/Prompt _write_prompt; Engine/Launch launch_task; Engine/Integrate, Engine/Assign and
--   Engine/Tick controller_tick. Beside them stand the modules that the controller calls:
--   Engine/Checkpoint, Engine/Handoff and Engine/Results for checkpoints.py, handoff.py and
--   results.py of src/railwarden/runtime/, and Engine/Completion for
--   src/railwarden/workers/completion.py. Engine/Outside has the parameters and the joint state.
-- - Config, Base/Errors: src/railwarden/config/models.py and errors.py. Text and Value: the methods
--   of Python's str and the JSON values that the code uses. Base: shared helpers.
-- - Examples: the theorems at concrete inputs.
--
-- How state and errors are modelled. A function that writes the runtime directory or a repository is
-- an action, from a state to a result and the new state, so that a write before an exception stays.
-- An exception is a value of Error with the pieces of its message. A dict is an association list in
-- insertion order, a set a list of its members. A Python dict that a function mutates is returned.
-- Times are whole seconds, costs and percentages whole numbers, and one operation reads the clock
-- once. The controller's state Sys is the runtime directory with the repository; launch_task, whose
-- caller uses the mutated task after an exception, has the task in its state too. `str` of a value
-- that is neither a text nor None, and `int` of a text, are parameters, with the other conversions of
-- Python in the record Outside.
--
-- Fuel. The visits of Scheduler/Dag recur along the dependencies, on one unit of fuel for each package
-- and one more: the calls nest no deeper than there are packages. No other function has fuel.
--
-- Outside the model. Git, the file system and the commands are the parameter World; a law of git that
-- a theorem needs is a hypothesis of that theorem. The test of a JSON schema is a parameter, and so
-- are shlex.split where package.py calls it, parse_qsl, the regular expressions (so the redaction of secrets too), the start of
-- a process, and what tmux answers. Left out are the lock of the integration manager, file
-- permissions and atomic renames, new directories, the text of `detail` in a package's state,
-- durations, an exception of the removal of an untracked file, the output in the message of a failed
-- git command, the script that runs in a pane, and update_usage of quota.py, which computes with
-- floats. A text file that the controller writes is its text; a worker's files appear in the state.
-- The command line, the MCP server, the layout of tmux, Hermes, the planning pipeline and the loading
-- of configuration files are not modelled: they are input, output and glue. critical_path of dag.py
-- is not modelled either.
pub mod Base
pub mod Config
pub mod Text
pub mod World
pub mod Validation
pub mod Value
pub mod Runtime
pub mod Tasks
pub mod Scheduler
pub mod Providers
pub mod Processes
pub mod Worktrees
pub mod Integration
pub mod Decisions
pub mod Workflow
pub mod Agents
pub mod Engine
mod Examples
