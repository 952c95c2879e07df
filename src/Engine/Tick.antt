-- ===== src/Engine/Tick.antt =====
-- engine/controller.py, `controller_tick`, with `plan_is_approved` of planning/pipeline.py and
-- `context_status` of runtime/context.py: one round of the controller. The health checks of the
-- adapters are an argument; `none` stands for a tick that makes none.
pub mod Bounded
use railwarden.Base.{
  ℕ, String, ◌==◌, Bool, true, false, not, ◌&&◌, ◌||◌, Option, none, some, List, [], ◌∷◌, ok, Dict,
  lookup, if◌then◌else◌,
}
use railwarden.Base.Exec.{Exec, pure, gets, ◌>>=◌, ◌>>◌}
use railwarden.Text.{strip, has_text}
use railwarden.Config.{ProjectConfig, ProjectFiles, WorkPackage}
use railwarden.Value.{Value, obj, null, Fields, end, get_or, get, truthy}
use railwarden.Runtime.{Runtime, append_event}
use railwarden.World.{World, under}
use railwarden.Providers.Adapters.{ProviderAdapter}
use railwarden.Engine.{hydrate_task_state}
use railwarden.Engine.Outside.{Outside, Sys, in_runtime}
use railwarden.Engine.Agents.{refresh_provider_health, refresh_cooldowns}
use railwarden.Engine.Handoff.{text_at_path}
use railwarden.Engine.Supervisor.{default_supervisor_decisions}
use railwarden.Engine.Reconcile.{reconcile_processes}
use railwarden.Engine.Launch.{Machine}
use railwarden.Engine.Integrate.{integrate_first}
use railwarden.Engine.Assign.{Launched, launch_ready}

abbrev approved_in : Value → Bool
approved_in (obj payload) = truthy (get_or "approved" null payload)
approved_in _ = false

-- From the file of the pending plan.
abbrev pub approved : ProjectConfig → Option Value → Bool
approved config none = not config.execution_require_plan_approval
approved config (some payload) = approved_in payload

unfoldable pub plan_is_approved : ProjectConfig → Runtime → Bool
unfolding get truthy
plan_is_approved config rt = approved config rt.pending_plan

abbrev context_files : List String
context_files =
    "PROJECT_CONTEXT.md" ∷ "ARCHITECTURE.md" ∷ "PRODUCT_INVARIANTS.md" ∷ "SECURITY_MODEL.md"
    ∷ "TEST_STRATEGY.md" ∷ "CONTRIBUTING_AGENTS.md" ∷ []

abbrev template_markers : List String
template_markers =
    "Describe the repository" ∷ "Record stable architectural decisions"
    ∷ "List behavior that work packages must preserve" ∷ "Document trust boundaries"
    ∷ "Document required checks" ∷ "Describe how RailWarden workers should inspect" ∷ []

unfoldable pub has_marker : List String → String → Bool
unfolding has_text
has_marker [] text = false
has_marker (marker ∷ markers) text = has_text marker text || has_marker markers text

-- The row of a file is empty or stale.
unfoldable pub is_stale : String → Bool
unfolding strip has_marker
is_stale text = strip text == "" || has_marker template_markers text

unfoldable pub any_stale : ProjectConfig → Runtime → List String → Bool
unfolding text_at_path is_stale
any_stale config rt [] = false
any_stale config rt (name ∷ names) =
    is_stale (text_at_path (under (under config.repository_root "context") name) rt)
    || any_stale config rt names

abbrev lacks_refs : List String → Bool
lacks_refs [] = true
lacks_refs (_ ∷ _) = false

unfoldable pub any_without_refs : Dict WorkPackage → Bool
any_without_refs [] = false
any_without_refs ((_, work_package) ∷ packages) =
    lacks_refs work_package.context_refs || any_without_refs packages

-- The status that `context_status` gives.
unfoldable pub context_status : ProjectConfig → Dict WorkPackage → Runtime → String
unfolding any_stale any_without_refs
context_status config packages rt =
    if any_stale config rt context_files || any_without_refs packages
    then "needs_population"
    else "ok"

-- What a tick returns.
pub record TickResult : Type 0 where
  pub status : String
  pub launched : List Launched
  pub integrated : Option Fields

abbrev pub waiting : String → TickResult
waiting status = record { status = status; launched = []; integrated = none }

module _ (W : World) (O : Outside) (files : ProjectFiles) (M : Machine)
    (adapters : Dict ProviderAdapter) (health : Option (Dict Fields))
    (launch integrate : Bool) where
  abbrev refresh_if : Option (Dict Fields) → Exec (Sys W) (Unit {0})
  refresh_if none = pure tt
  refresh_if (some answers) =
      in_runtime W (refresh_provider_health O files.project answers files.project.worker_providers)

  abbrev hydrate : Exec (Sys W) (List Fields)
  hydrate s =
      in_runtime W (hydrate_task_state O.show O.parse W s.repo files.project files.packages) s

  -- The work of a tick before it starts tasks.
  unfoldable pub settle_work : Exec (Sys W) (Option Fields)
  unfolding in_runtime refresh_provider_health refresh_cooldowns hydrate_task_state
      reconcile_processes default_supervisor_decisions integrate_first
  settle_work = do
    refresh_if health
    in_runtime W (refresh_cooldowns O files.project files.project.worker_providers)
    hydrate
    reconcile_processes W O files
    default_supervisor_decisions W O files
    if integrate then integrate_first W O files else pure none

  unfoldable pub tick_work : Exec (Sys W) TickResult
  unfolding settle_work launch_ready
  tick_work = do
    integrated ← settle_work
    launched ← launch_ready W O files M adapters launch
    pure (record { status = "ok"; launched = launched; integrated = integrated })

  abbrev wait_for : String → String → Exec (Sys W) TickResult
  wait_for kind status = in_runtime W (append_event kind end none) >>= λ _. pure (waiting status)

  unfoldable pub controller_tick : Exec (Sys W) TickResult
  unfolding plan_is_approved in_runtime append_event context_status tick_work
  controller_tick s =
      (if plan_is_approved files.project s.rt
          then if context_status files.project files.packages s.rt == "needs_population"
            then wait_for "controller_waiting_for_context_population"
                "waiting_for_context_population"
            else tick_work
          else wait_for "controller_waiting_for_plan_approval" "waiting_for_plan_approval")
        s
