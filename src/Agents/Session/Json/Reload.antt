-- ===== src/Agents/Session/Json/Reload.antt =====
-- What a saved session profile is read back as.
use railwarden.Base.{
  ℕ, String, eq_iff, Option, none, some, List, [], ◌∷◌, ok, All, ◌≡◌, ◌≢◌, refl, arith,
}
use railwarden.Value.{get, truthy, Show, to_str}
use railwarden.Agents.Session.{ModelProfile, QuotaPolicy, AgentInstance, SessionProfile}
use railwarden.Agents.Session.Json.{
  nullable, nullable_num, nullable_agent, model_fields, policy_fields, agent_fields, agent_items,
  session_fields, text_at, text_or_none, int_or_none, float_or_none, float_of, int_of,
  model_from_json, quota_policy_from_json, agent_from_json, agents_from_json, agent_or_none,
  session_from_json,
}

-- An optional text that is not empty: an empty one is read as `None`.
abbrev pub IsGiven : Option String → Type 0
IsGiven none = Unit
IsGiven (some text) = text ≢ ""

abbrev pub IsWritten : AgentInstance → Type 0
IsWritten agent =
    IsGiven agent.setup_name
    × IsGiven agent.active_task
    × IsGiven agent.model_profile.auth_ref
    × IsGiven agent.model_profile.base_url
    × IsGiven agent.model_profile.reasoning_effort

abbrev pub IsWritten? : Option AgentInstance → Type 0
IsWritten? none = Unit
IsWritten? (some agent) = IsWritten agent

module _ (show : Show) (parse : String → Option ℕ) where
  text_or_none-nullable :
      (text : Option String) → IsGiven text → text_or_none show parse (nullable text) ≡ text
  unfolding text_or_none truthy to_str
  text_or_none-nullable none given = refl
  text_or_none-nullable (some text) given = ground (arith, eq_iff text "")

  int_or_none-nullable : (n : Option ℕ) → int_or_none show parse (nullable_num n) ≡ ok n
  unfolding int_or_none int_of
  int_or_none-nullable none = refl
  int_or_none-nullable (some n) = refl

  float_or_none-nullable : (n : Option ℕ) → float_or_none show parse (nullable_num n) ≡ ok n
  unfolding float_or_none float_of
  float_or_none-nullable none = refl
  float_or_none-nullable (some n) = refl

  model_from_json-model_fields :
      (profile : ModelProfile)
      → IsGiven profile.auth_ref
      → IsGiven profile.base_url
      → IsGiven profile.reasoning_effort
      → model_from_json show parse (model_fields profile) ≡ ok profile
  unfolding model_from_json text_at get to_str
  model_from_json-model_fields profile auth url effort = rw (
    int_or_none-nullable profile.context_window,
    float_or_none-nullable profile.input_cost_per_million,
    float_or_none-nullable profile.output_cost_per_million,
    text_or_none-nullable profile.auth_ref auth,
    text_or_none-nullable profile.base_url url,
    text_or_none-nullable profile.reasoning_effort effort,
  )

  quota_policy_from_json-policy_fields :
      (policy : QuotaPolicy) → quota_policy_from_json show parse (policy_fields policy) ≡ ok policy
  unfolding quota_policy_from_json get truthy float_of
  quota_policy_from_json-policy_fields policy = rw (int_or_none-nullable policy.manual_token_limit)

  agent_from_json-agent_fields :
      (agent : AgentInstance)
      → IsWritten agent
      → agent_from_json show parse (agent_fields agent) ≡ ok agent
  unfolding agent_from_json text_at get to_str
  agent_from_json-agent_fields agent (setup, active, auth, url, effort) = rw (
    model_from_json-model_fields agent.model_profile auth url effort,
    quota_policy_from_json-policy_fields agent.quota_policy,
    text_or_none-nullable agent.setup_name setup,
    text_or_none-nullable agent.active_task active,
  )

  agents_from_json-agent_items :
      (agents : List AgentInstance)
      → All IsWritten agents
      → agents_from_json show parse (agent_items agents) ≡ ok agents
  unfolding agents_from_json agent_items
  agents_from_json-agent_items [] written = refl
  agents_from_json-agent_items (agent ∷ agents) (written, more) =
      rw (agent_from_json-agent_fields agent written, agents_from_json-agent_items agents more)

  agent_or_none-nullable_agent :
      (agent : Option AgentInstance)
      → IsWritten? agent
      → agent_or_none show parse (nullable_agent agent) ≡ ok agent
  unfolding agent_or_none truthy
  agent_or_none-nullable_agent none written = refl
  agent_or_none-nullable_agent (some agent) written =
      rw (agent_from_json-agent_fields agent written)

  -- A profile whose optional texts are not empty is read back from its dict, whatever the clock
  -- says.
  pub session_from_json-session_fields :
      (now : ℕ) (profile : SessionProfile)
      → IsWritten profile.orchestrator
      → IsWritten profile.architect
      → All IsWritten profile.workers
      → IsWritten? profile.reviewer
      → IsWritten? profile.validator
      → session_from_json show parse now (session_fields profile) ≡ ok profile
  unfolding session_from_json session_fields text_at get to_str float_of
  session_from_json-session_fields now profile orchestrator architect workers reviewer validator =
      rw (
        agent_from_json-agent_fields profile.orchestrator orchestrator,
        agent_from_json-agent_fields profile.architect architect,
        agents_from_json-agent_items profile.workers workers,
        agent_or_none-nullable_agent profile.reviewer reviewer,
        agent_or_none-nullable_agent profile.validator validator,
      )
