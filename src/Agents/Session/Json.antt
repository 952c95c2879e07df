-- ===== src/Agents/Session/Json.antt =====
-- runtime/session.py: the session profile as a dict of JSON values.
pub mod Reload
use railwarden.Base.{
  ℕ, String, ◌==◌, Bool, true, false, not, ◌&&◌, ◌||◌, Option, none, some, List, [], ◌∷◌, Result,
  ok, err, configuration, key_error, value_error, ◌>>=◌, ◌>>◌, raise_if, Dict, if◌then◌else◌,
}
use railwarden.Text.{has_text, ends_with}
use railwarden.Config.{ProjectConfig}
use railwarden.Value.{
  Value, null, num, flag, str, arr, obj, Items, cons, nil, Fields, end, field, get, get_or, truthy,
  Show, to_str,
}
use railwarden.Agents.Session.{
  ModelProfile, QuotaPolicy, AgentInstance, SessionProfile, default_session_profile,
}

abbrev pub nullable : Option String → Value
nullable none = null
nullable (some text) = str text

abbrev pub nullable_num : Option ℕ → Value
nullable_num none = null
nullable_num (some n) = num n

-- `asdict` of each dataclass
abbrev pub model_fields : ModelProfile → Fields
model_fields profile = field "provider" (str profile.provider) (
    field "model" (str profile.model) (
      field "transport" (str profile.transport) (
        field "auth_ref" (nullable profile.auth_ref) (
          field "base_url" (nullable profile.base_url) (
            field "reasoning_effort" (nullable profile.reasoning_effort) (
              field "context_window" (nullable_num profile.context_window) (
                field "input_cost_per_million" (nullable_num profile.input_cost_per_million) (
                  field "output_cost_per_million" (nullable_num profile.output_cost_per_million)
                    end))))))))

abbrev pub policy_fields : QuotaPolicy → Fields
policy_fields policy = field "warning_threshold_percent" (num policy.warning_threshold_percent) (
    field "pause_threshold_percent" (num policy.pause_threshold_percent) (
      field "hard_stop_below_pause" (flag policy.hard_stop_below_pause)
        (field "manual_token_limit" (nullable_num policy.manual_token_limit) end)))

abbrev pub agent_fields : AgentInstance → Fields
agent_fields agent = field "agent_id" (str agent.agent_id) (
    field "role" (str agent.role) (
      field "model_profile" (obj (model_fields agent.model_profile)) (
        field "executor_adapter" (str agent.executor_adapter) (
          field "setup_name" (nullable agent.setup_name) (
            field "state" (str agent.state) (
              field "quota_policy" (obj (policy_fields agent.quota_policy))
                (field "active_task" (nullable agent.active_task) end)))))))

abbrev pub nullable_agent : Option AgentInstance → Value
nullable_agent none = null
nullable_agent (some agent) = obj (agent_fields agent)

unfoldable pub agent_items : List AgentInstance → Items
agent_items [] = nil
agent_items (agent ∷ agents) = cons (obj (agent_fields agent)) (agent_items agents)

unfoldable pub session_fields : SessionProfile → Fields
unfolding agent_items
session_fields profile = field "name" (str profile.name) (
    field "project" (str profile.project) (
      field "created_at" (num profile.created_at) (
        field "updated_at" (num profile.updated_at) (
          field "orchestrator" (obj (agent_fields profile.orchestrator)) (
            field "architect" (obj (agent_fields profile.architect)) (
              field "workers" (arr (agent_items profile.workers)) (
                field "reviewer" (nullable_agent profile.reviewer) (
                  field "validator" (nullable_agent profile.validator) (
                    field "fallback_policy" (str profile.fallback_policy)
                      (field "budget_label" (str profile.budget_label) end))))))))))

-- `_mapping`
abbrev pub mapping : Value → Result Fields
mapping (obj d) = ok d
mapping _ = err (configuration ("Expected mapping in session profile" ∷ []))

-- `_list`
abbrev list_of : Value → Result Items
list_of (arr items) = ok items
list_of _ = err (configuration ("Expected list in session profile" ∷ []))

-- `payload[key]`
abbrev pub required : String → Fields → Result Value
required key payload = elim (get key payload) [ some v ↦ ok v | none ↦ err (key_error (key ∷ [])) ]

module _ (show : Show) (parse : String → Option ℕ) where
  abbrev parsed : String → Option ℕ → Result ℕ
  parsed s (some n) = ok n
  parsed s none = err (value_error ("invalid literal: " ∷ s ∷ []))

  -- `_float`
  unfoldable pub float_of : Value → ℕ → Result ℕ
  float_of null default = ok default
  float_of (num n) default = ok n
  float_of (flag b) default = ok (if b then 1 else 0)
  float_of (str s) default = parsed s (parse s)
  float_of _ default = err (configuration ("Expected numeric value in session profile" ∷ []))

  -- `_int`
  unfoldable pub int_of : Value → Result ℕ
  int_of (num n) = ok n
  int_of (flag b) = ok (if b then 1 else 0)
  int_of (str s) = parsed s (parse s)
  int_of _ = err (configuration ("Expected integer value in session profile" ∷ []))

  -- `str(payload[key])`
  unfoldable pub text_at : String → Fields → Result String
  unfolding get to_str
  text_at key payload = required key payload >>= λ v. ok (to_str show v)

  -- `str(v) if v else None`
  unfoldable pub text_or_none : Value → Option String
  unfolding truthy to_str
  text_or_none v = if truthy v then some (to_str show v) else none

  -- `_int(v) if v is not None else None`
  unfoldable pub int_or_none : Value → Result (Option ℕ)
  unfolding int_of
  int_or_none null = ok none
  int_or_none v = int_of v >>= λ n. ok (some n)

  -- `_float(v, 0.0) if v is not None else None`
  unfoldable pub float_or_none : Value → Result (Option ℕ)
  unfolding float_of
  float_or_none null = ok none
  float_or_none v = float_of v 0 >>= λ n. ok (some n)

  unfoldable pub model_from_json : Fields → Result ModelProfile
  unfolding get text_at text_or_none int_or_none float_or_none
  model_from_json payload = do
    provider ← text_at "provider" payload
    model ← text_at "model" payload
    transport ← text_at "transport" payload
    context_window ← int_or_none (get_or "context_window" null payload)
    input_cost ← float_or_none (get_or "input_cost_per_million" null payload)
    output_cost ← float_or_none (get_or "output_cost_per_million" null payload)
    ok (record {
      provider = provider;
      model = model;
      transport = transport;
      auth_ref = text_or_none (get_or "auth_ref" null payload);
      base_url = text_or_none (get_or "base_url" null payload);
      reasoning_effort = text_or_none (get_or "reasoning_effort" null payload);
      context_window = context_window;
      input_cost_per_million = input_cost;
      output_cost_per_million = output_cost;
    })

  unfoldable pub quota_policy_from_json : Fields → Result QuotaPolicy
  unfolding get truthy float_of int_or_none
  quota_policy_from_json payload = do
    warning ← float_of (get_or "warning_threshold_percent" null payload) 15
    pause ← float_of (get_or "pause_threshold_percent" null payload) 5
    limit ← int_or_none (get_or "manual_token_limit" null payload)
    ok (record {
      warning_threshold_percent = warning;
      pause_threshold_percent = pause;
      hard_stop_below_pause = truthy (get_or "hard_stop_below_pause" (flag true) payload);
      manual_token_limit = limit;
    })

  unfoldable pub agent_from_json : Fields → Result AgentInstance
  unfolding get text_at text_or_none to_str model_from_json quota_policy_from_json
  agent_from_json payload = do
    agent_id ← text_at "agent_id" payload
    role ← text_at "role" payload
    model ← required "model_profile" payload
    model_payload ← mapping model
    profile ← model_from_json model_payload
    adapter ← text_at "executor_adapter" payload
    policy_payload ← mapping (get_or "quota_policy" (obj end) payload)
    policy ← quota_policy_from_json policy_payload
    ok (record {
      agent_id = agent_id;
      role = role;
      model_profile = profile;
      executor_adapter = adapter;
      setup_name = text_or_none (get_or "setup_name" null payload);
      state = to_str show (get_or "state" (str "ready") payload);
      quota_policy = policy;
      active_task = text_or_none (get_or "active_task" null payload);
    })

  unfoldable pub agents_from_json : Items → Result (List AgentInstance)
  unfolding agent_from_json
  agents_from_json nil = ok []
  agents_from_json (cons item items) = do
    payload ← mapping item
    agent ← agent_from_json payload
    agents ← agents_from_json items
    ok (agent ∷ agents)

  -- `_agent_from_json(_mapping(v)) if v else None`
  unfoldable pub agent_or_none : Value → Result (Option AgentInstance)
  unfolding agent_from_json truthy
  agent_or_none v =
      if truthy v
      then (mapping v >>= λ payload. agent_from_json payload >>= λ agent. ok (some agent))
      else ok none

  unfoldable pub session_from_json : ℕ → Fields → Result SessionProfile
  unfolding get text_at float_of agent_from_json agents_from_json agent_or_none to_str
  session_from_json now payload = do
    name ← text_at "name" payload
    project ← text_at "project" payload
    created_at ← float_of (get_or "created_at" null payload) now
    updated_at ← float_of (get_or "updated_at" null payload) now
    lead ← required "orchestrator" payload
    lead_payload ← mapping lead
    orchestrator ← agent_from_json lead_payload
    planner ← required "architect" payload
    planner_payload ← mapping planner
    architect ← agent_from_json planner_payload
    items ← list_of (get_or "workers" (arr nil) payload)
    workers ← agents_from_json items
    reviewer ← agent_or_none (get_or "reviewer" null payload)
    validator ← agent_or_none (get_or "validator" null payload)
    ok (record {
      name = name;
      project = project;
      created_at = created_at;
      updated_at = updated_at;
      orchestrator = orchestrator;
      architect = architect;
      workers = workers;
      reviewer = reviewer;
      validator = validator;
      fallback_policy = to_str show (get_or "fallback_policy" (str "prompt-before-swap") payload);
      budget_label = to_str show (get_or "budget_label" (str "default") payload);
    })
