-- ===== src/Engine/Assign/Slots.antt =====
-- How many tasks a tick starts.
use railwarden.Base.{
  ℕ, zero, suc, ◌-◌, ◌≤◌, Bool, Option, none, some, List, [], ◌∷◌, length, ok, Dict, ◌≡◌, subst,
  arith,
}
use railwarden.Base.Exec.{run-eq-ok, gets-eq-ok, gets}
use railwarden.Config.{ProjectFiles}
use railwarden.Value.{Fields}
use railwarden.Tasks.{load_tasks}
use railwarden.World.{World}
use railwarden.Providers.Adapters.{ProviderAdapter}
use railwarden.Engine.Outside.{Outside, Sys}
use railwarden.Engine.Launch.{Machine}
use railwarden.Engine.Assign.{
  Launched, consider, fill_slots, launched_by, slots_after, running_count, launch_ready,
}

module _ (W : World) (O : Outside) (files : ProjectFiles) (M : Machine)
    (adapters : Dict ProviderAdapter) (launch : Bool) where
  counted :
      (outcome : Option Launched) (rest : List Launched) (slots : ℕ)
      → length rest ≤ slots_after outcome slots
      → length (launched_by outcome rest) ≤ suc slots
  counted none rest slots h = h
  counted (some launched) rest slots h = omega arith

  pub fill_slots-le :
      (tasks : List Fields) (slots : ℕ) (s t : Sys W) (launched : List Launched)
      → fill_slots W O files M adapters launch tasks slots s ≡ (ok launched, t)
      → length launched ≤ slots
  unfolding fill_slots
  fill_slots-le [] slots s t launched e = ground arith
  fill_slots-le (task ∷ tasks) zero s t launched e = ground arith
  fill_slots-le (task ∷ tasks) (suc slots) s t launched e =
      let (outcome, u, first, e') =
        run-eq-ok (consider W O files M adapters launch task) _ s t launched e in
      let (rest, v, more, e'') =
        run-eq-ok (fill_slots W O files M adapters launch tasks (slots_after outcome slots)) _ u t
          launched e' in
      let bound = fill_slots-le tasks (slots_after outcome slots) u v rest more in
      let same : launched_by outcome rest ≡ launched = cc in
      subst (λ l. length l ≤ suc slots) same (counted outcome rest slots bound)

  -- Whenever the part of a tick that starts tasks returns, the tasks that it started are no more
  -- than the concurrency leaves after those that are active.
  pub launch_ready-Bounded :
      (s t : Sys W) (launched : List Launched)
      → launch_ready W O files M adapters launch s ≡ (ok launched, t)
      → (tasks : List Fields) × (load_tasks s.rt ≡ ok tasks)
        × (length launched
            ≤ files.project.worker_concurrency - running_count W O files M adapters launch tasks)
  unfolding launch_ready
  launch_ready-Bounded s t launched e =
      let (tasks, u, loaded, rest) = run-eq-ok (gets (λ v. load_tasks v.rt)) _ s t launched e in
      let (read, same) = gets-eq-ok (λ v. load_tasks v.rt) s u tasks loaded in
      let slots =
        files.project.worker_concurrency - running_count W O files M adapters launch tasks in
      (tasks, read, fill_slots-le tasks slots u t launched rest)
