-- ===== src/Scheduler/Classifier/Plan.antt =====
-- scheduler/classifier.py, `execution_plan`: the next assignments, the queue of integrations and
-- the packages that wait. An entry of the plan is the state of the package that it is about, with
-- the worker and the action of an assignment; the dict's texts are fields of these.
pub mod Assigned
use railwarden.Base.{
  ℕ, zero, suc, String, ◌==◌, Bool, true, false, not, ◌&&◌, ◌||◌, List, [], ◌∷◌, sorted_by, text_le,
  if◌then◌else◌,
}
use railwarden.Config.{ProjectConfig}
use railwarden.Scheduler.Classifier.{PackageState}

pub record Assignment : Type 0 where
  pub state : PackageState
  pub action : String
  pub worker : String

pub record ExecutionPlan : Type 0 where
  pub worker_assignments : List Assignment
  pub integration_queue : List PackageState
  pub waiting : List PackageState
  pub available_workers : List String

-- `items[:n]`
unfoldable pub take {ℓ} : {A : Type ℓ} → ℕ → List A → List A
take zero xs = []
take (suc n) [] = []
take (suc n) (x ∷ xs) = x ∷ take n xs

unfoldable pub select_states : (PackageState → Bool) → List PackageState → List PackageState
select_states test [] = []
select_states test (state ∷ states) =
    let rest = select_states test states in if test state then state ∷ rest else rest

abbrev pub is_candidate : PackageState → Bool
is_candidate item = item.state == "repair_required" || item.state == "execution_ready"

abbrev pub is_repair : PackageState → Bool
is_repair item = item.state == "repair_required"

abbrev pub is_integration_ready : PackageState → Bool
is_integration_ready item = item.state == "integration_ready"

abbrev pub is_waiting : PackageState → Bool
is_waiting item = item.state == "waiting" || item.state == "integration_blocked"

-- The order of the sort keys `(0 if repair else 1, package_id)`.
unfoldable pub candidate_le : PackageState → PackageState → Bool
candidate_le a b =
    is_repair a && not (is_repair b)
    || (is_repair a || not (is_repair b)) && text_le a.package_id b.package_id

abbrev id_le : PackageState → PackageState → Bool
id_le a b = text_le a.package_id b.package_id

abbrev assignment : PackageState → String → Assignment
assignment state worker = record {
  state = state;
  action = if is_repair state then "repair" else "execute";
  worker = worker;
}

-- The loop over the candidates: the assignments, and the workers that are left.
unfoldable pub assign : List PackageState → List String → List Assignment × List String
assign [] available = ([], available)
assign (state ∷ states) [] = ([], [])
assign (state ∷ states) (worker ∷ available) =
    let (assignments, left) = assign states available in
    (assignment state worker ∷ assignments, left)

unfoldable pub candidates_of : List PackageState → List PackageState
unfolding select_states sorted_by candidate_le
candidates_of states = sorted_by candidate_le (select_states is_candidate states)

unfoldable pub execution_plan : ProjectConfig → List PackageState → ExecutionPlan
unfolding candidates_of assign take select_states sorted_by
execution_plan config states =
    let (assignments, left) =
      assign (candidates_of states) (take config.worker_concurrency config.worker_providers) in
    record {
      worker_assignments = assignments;
      integration_queue = sorted_by id_le (select_states is_integration_ready states);
      waiting = select_states is_waiting states;
      available_workers = left;
    }
