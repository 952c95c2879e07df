-- ===== src/Examples/Agents.antt =====
-- Sessions, quotas and the agents of the controller.
use railwarden.Base.{String, true, false, none, some, [], ◌∷◌, map, ok, ◌≡◌, refl, ◌↔◌}
use railwarden.Value.{obj}
use railwarden.Runtime.{Runtime, empty}
use railwarden.Agents.Session.{
  ModelProfile, AgentInstance, SessionProfile, QuotaState, default_policy, agents, swapped,
  update_agent,
}
use railwarden.Agents.Session.Json.{session_fields}
use railwarden.Agents.Session.Store.{leaks, save_session_profile, load_session_profile}
use railwarden.Agents.Session.Store.Kept.{load_session_profile-save_session_profile}
use railwarden.Agents.Session.Update.{ids, agents-update_agent}
use railwarden.Agents.Quota.{load_quota, quota_allows_start, save_quota}
use railwarden.Agents.Quota.Start.{Stopped, quota_allows_start-Stopped}
use railwarden.Engine.Outside.{Outside}
use railwarden.Engine.Agents.{load_profile, agent_for_provider}
use railwarden.Engine.Agents.Chosen.{Represents, agent_for_provider-Represents}
use railwarden.Examples.State.{project}

abbrev pub outside : Outside
outside = record {
  show = λ v. "1";
  parse = λ s. none;
  parse_qsl = λ s. [];
  dumps = λ v. "{}";
  redacted_json = λ v. v;
  split = λ s. none;
  is_token = λ s. false;
  schema_error = λ d. none;
  process_alive = λ pid. true;
  environ = ("MY_TOKEN", "secret") ∷ [];
}

abbrev profile_of : String → ModelProfile
profile_of provider = record {
  provider = provider;
  model = "m";
  transport = "cli";
  auth_ref = none;
  base_url = none;
  reasoning_effort = some "high";
  context_window = none;
  input_cost_per_million = none;
  output_cost_per_million = none;
}

abbrev agent_of : String → String → AgentInstance
agent_of id adapter = record {
  agent_id = id;
  role = "coder";
  model_profile = profile_of adapter;
  executor_adapter = adapter;
  setup_name = none;
  state = "ready";
  quota_policy = default_policy;
  active_task = none;
}

abbrev pub profile : SessionProfile
profile = record {
  name = "default";
  project = "demo";
  created_at = 1;
  updated_at = 1;
  orchestrator = agent_of "hermes" "hermes";
  architect = agent_of "architect" "codex";
  workers = agent_of "codex-1" "codex" ∷ agent_of "composer-1" "composer" ∷ [];
  reviewer = some (agent_of "reviewer" "pydanticai");
  validator = none;
  fallback_policy = "prompt-before-swap";
  budget_label = "default";
}

abbrev busy : AgentInstance
busy = record (agent_of "codex-1" "codex") { state = "running"; active_task = some "task-a" }

agents-update_agent_example :
    (agents (update_agent 9 profile busy) ≡ map (swapped busy) (agents profile))
    × (ids (agents (update_agent 9 profile busy)) ≡ ids (agents profile))
agents-update_agent_example = agents-update_agent 9 profile busy

abbrev pub with_session : Runtime
with_session = record (empty 5) { session = some (obj (session_fields profile)) }

load_session_profile-save_session_profile_example :
    (leaks "{}" outside.environ ≡ false)
    × (load_session_profile outside.dumps outside.environ outside.show outside.parse
          outside.parse_qsl project with_session
        ≡ (ok profile, with_session))
unfolding save_session_profile
load_session_profile-save_session_profile_example =
    load_session_profile-save_session_profile outside.dumps outside.environ outside.show
      outside.parse outside.parse_qsl project profile (empty 5) with_session refl
      (tt, tt, tt, tt, λ e. cc) (tt, tt, tt, tt, λ e. cc)
      ((tt, tt, tt, tt, λ e. cc), ((tt, tt, tt, tt, λ e. cc), tt)) (tt, tt, tt, tt, λ e. cc) tt

abbrev low : QuotaState
low = record {
  provider = "codex";
  model = "m";
  used_tokens = 97;
  limit_tokens = some 100;
  reset_at = none;
  remaining_percent = some 3;
  confidence = "exact";
  updated_at = 4;
}

quota_allows_start-Stopped_example :
    (load_quota outside.show outside.parse busy (save_quota low (empty 5)) ≡ ok low)
    × ((false ≡ false) ↔ Stopped busy.quota_policy low)
unfolding quota_allows_start save_quota
quota_allows_start-Stopped_example =
    quota_allows_start-Stopped outside.show outside.parse busy (save_quota low (empty 5)) false low
      "pause-threshold" refl

agent_for_provider-Represents_example :
    (found : SessionProfile) × (load_profile outside project with_session
      ≡ (ok found, with_session))
    × Represents "composer" (agents found) (some (agent_of "composer-1" "composer"))
unfolding agent_for_provider
agent_for_provider-Represents_example =
    agent_for_provider-Represents outside project "composer" with_session with_session
      (some (agent_of "composer-1" "composer")) refl
