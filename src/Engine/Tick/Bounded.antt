-- ===== src/Engine/Tick/Bounded.antt =====
-- How many tasks a whole tick starts.
use railwarden.Base.{
  ◌-◌, ◌≤◌, ◌==◌, Bool, true, Bool-cases, Option, List, length, Dict, ok, ◌≡◌, ◌⊎◌, inl, inr, subst,
  arith,
}
use railwarden.Base.Exec.{run-eq-ok, pure-eq-ok}
use railwarden.Config.{ProjectFiles}
use railwarden.Value.{Fields}
use railwarden.Tasks.{load_tasks}
use railwarden.World.{World}
use railwarden.Providers.Adapters.{ProviderAdapter}
use railwarden.Engine.Outside.{Outside, Sys, in_runtime}
use railwarden.Engine.Launch.{Machine}
use railwarden.Engine.Assign.{running_count, launch_ready}
use railwarden.Engine.Assign.Slots.{launch_ready-Bounded}
use railwarden.Engine.Tick.{
  TickResult, plan_is_approved, context_status, settle_work, tick_work, controller_tick,
}

module _ (W : World) (O : Outside) (files : ProjectFiles) (M : Machine)
    (adapters : Dict ProviderAdapter) (health : Option (Dict Fields))
    (launch integrate : Bool) where
  -- A tick that worked: the tasks that the ledger held after the settling, and the bound.
  abbrev pub Worked : Sys W → TickResult → Type 0
  Worked s result =
      (u : Sys W) × (tasks : List Fields) × (settle_work W O files M adapters health launch
          integrate s
        ≡ (ok result.integrated, u))
      × (load_tasks u.rt ≡ ok tasks)
      × (length result.launched
          ≤ files.project.worker_concurrency - running_count W O files M adapters launch tasks)

  tick_work-Worked :
      (s t : Sys W) (result : TickResult)
      → tick_work W O files M adapters health launch integrate s ≡ (ok result, t)
      → Worked s result
  unfolding tick_work
  tick_work-Worked s t result e =
      let (integrated, u, settled, e') =
        run-eq-ok (settle_work W O files M adapters health launch integrate) _ s t result e in
      let (launched, v, started, e'') =
        run-eq-ok (launch_ready W O files M adapters launch) _ u t result e' in
      let (tasks, loaded, bound) =
        launch_ready-Bounded W O files M adapters launch u v launched started in
      subst (Worked s) (pure-eq-ok _ result v t e'').0 (u, tasks, settled, loaded, bound)

  -- Whenever a tick returns, either it started no task, or the plan is approved, its work on the
  -- existing tasks returned, and the tasks that it started are no more than the concurrency
  -- leaves after the tasks that the ledger then held in an active state.
  pub controller_tick-Worked :
      (s t : Sys W) (result : TickResult)
      → controller_tick W O files M adapters health launch integrate s ≡ (ok result, t)
      → (length result.launched ≡ 0)
        ⊎ ((plan_is_approved files.project s.rt ≡ true) × Worked s result)
  unfolding controller_tick in_runtime
  controller_tick-Worked s t result e = elim (Bool-cases (plan_is_approved files.project s.rt)) [
    | inr unapproved ↦ inl (ground (arith, unapproved))
    | inl approved ↦
        elim (Bool-cases (context_status files.project files.packages s.rt == "needs_population")) [
          | inl empty ↦ inl (ground (arith, approved, empty))
          | inr ready ↦ inr (approved, tick_work-Worked s t result (rw approved at (rw ready at e)))
        ]
  ]
