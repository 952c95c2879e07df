-- ===== src/Engine/Agents.antt =====
-- engine/controller.py: the agents of the session as the controller uses them.
pub mod Chosen
use railwarden.Base.{
  ℕ, String, ◌==◌, Bool, true, false, not, ◌&&◌, ◌||◌, Option, none, some, List, [], ◌∷◌, ◌++◌, map,
  Result, ok, Dict, lookup, contains, if◌then◌else◌,
}
use railwarden.Config.{ProjectConfig, WorkPackage}
use railwarden.Value.{Value, str, Fields, get, get_or, to_str}
use railwarden.Runtime.{Runtime, Action, pure, gets, modify, ◌>>=◌, ◌>>◌}
use railwarden.Providers.Health.{
  ProviderState, load_state, save_state, refresh_state, record_success,
}
use railwarden.Agents.Session.{AgentInstance, SessionProfile, agents, update_agent}
use railwarden.Agents.Session.Store.{load_session_profile, save_session_profile}
use railwarden.Engine.Outside.{Outside}
use railwarden.Engine.{eligible_providers}

abbrev pub uses_adapter : String → AgentInstance → Bool
uses_adapter provider agent = agent.executor_adapter == provider

abbrev pub runs_model_of : String → AgentInstance → Bool
runs_model_of provider agent = agent.model_profile.provider == provider

-- The first agent that passes the test.
unfoldable pub first_agent : (AgentInstance → Bool) → List AgentInstance → Option AgentInstance
first_agent test [] = none
first_agent test (agent ∷ agents) = if test agent then some agent else first_agent test agents

-- The two loops of `_agent_for_provider`.
unfoldable pub agent_among : String → List AgentInstance → Option AgentInstance
unfolding first_agent
agent_among provider among = elim (first_agent (uses_adapter provider) among) [
  | some agent ↦ some agent
  | none ↦ first_agent (runs_model_of provider) among
]

-- The adapters of the agents that are paused, out of quota or unavailable.
unfoldable pub paused_adapters : List AgentInstance → List String
unfolding contains
paused_adapters [] = []
paused_adapters (agent ∷ agents) =
    let rest = paused_adapters agents in
    if contains ("paused" ∷ "rate_limited" ∷ "unavailable" ∷ []) agent.state
    then agent.executor_adapter ∷ rest
    else rest

abbrev pub first_name : List String → Option String
first_name [] = none
first_name (name ∷ _) = some name

abbrev text_is : Option String → String → Bool
text_is none name = false
text_is (some text) name = text == name

abbrev is_set : Option String → Bool
is_set none = false
is_set (some _) = true

-- `active_task in {None, task}`
abbrev free_for : Option String → String → Bool
free_for none task = true
free_for (some active) task = active == task

module _ (O : Outside) (config : ProjectConfig) where
  abbrev pub load_profile : Action SessionProfile
  load_profile = load_session_profile O.dumps O.environ O.show O.parse O.parse_qsl config

  unfoldable pub agent_for_provider : String → Action (Option AgentInstance)
  unfolding load_session_profile agent_among
  agent_for_provider provider = do
    profile ← load_profile
    pure (agent_among provider (agents profile))

  -- A new agent with the other fields; `setup_name` is not passed on.
  abbrev pub in_state : AgentInstance → String → Option String → AgentInstance
  in_state agent state active_task = record agent {
    setup_name = none;
    state = state;
    active_task = active_task;
  }

  unfoldable pub set_agent_runtime_state :
      AgentInstance → String → Option String → Action AgentInstance
  unfolding load_session_profile save_session_profile update_agent
  set_agent_runtime_state agent state active_task = do
    profile ← load_profile
    now ← gets (λ rt. ok rt.clock)
    save_session_profile O.dumps O.environ
        (update_agent now profile (in_state agent state active_task))
    pure (in_state agent state active_task)

  -- `if agent is not None: ...`
  unfoldable pub set_found_state : Option AgentInstance → String → Option String → Action (Unit {0})
  unfolding set_agent_runtime_state
  set_found_state none state active_task = pure tt
  set_found_state (some agent) state active_task =
      set_agent_runtime_state agent state active_task >>= λ _. pure tt

  abbrev ready_if_free : Option AgentInstance → String → Action (Unit {0})
  ready_if_free none active_task = pure tt
  ready_if_free (some agent) active_task =
      if free_for agent.active_task active_task
      then set_found_state (some agent) "ready" none
      else pure tt

  unfoldable pub set_provider_agent_ready : String → String → Action (Unit {0})
  unfolding agent_for_provider set_found_state
  set_provider_agent_ready provider active_task = do
    agent ← agent_for_provider provider
    ready_if_free agent active_task

  unfoldable pub providers_for : WorkPackage → List String → Action (List String)
  unfolding load_session_profile eligible_providers paused_adapters
  providers_for work_package excluded = do
    profile ← load_profile
    eligible_providers O.show O.parse config work_package (paused_adapters (agents profile))
        excluded

  abbrev reviewer_adapter : Option AgentInstance → String → Option String
  reviewer_adapter none worker = none
  reviewer_adapter (some agent) worker =
      if agent.executor_adapter == worker then none else some agent.executor_adapter

  abbrev profile_of : Option String → String → Option String
  profile_of none worker = none
  profile_of (some reviewer) worker =
      if reviewer == "" || reviewer == worker then none else some reviewer

  abbrev or_local : Option String → String
  or_local none = "railwarden-local-reviewer"
  or_local (some name) = name

  -- The rest of `_reviewer_provider_for`, from the two names that come before the providers.
  abbrev pub reviewer_from : Option String → Option String → WorkPackage → String → Action String
  reviewer_from (some adapter) named work_package worker = pure adapter
  reviewer_from none (some named) work_package worker = pure named
  reviewer_from none none work_package worker =
      providers_for work_package (worker ∷ []) >>= λ providers.
      pure (or_local (first_name providers))

  unfoldable pub reviewer_provider_for : WorkPackage → String → Action String
  unfolding load_session_profile providers_for
  reviewer_provider_for work_package worker_provider = do
    profile ← load_profile
    reviewer_from (reviewer_adapter profile.reviewer worker_provider)
        (profile_of work_package.reviewer_profile worker_provider) work_package worker_provider

  -- The agent becomes ready again when its provider is healthy.
  abbrev restore : Option AgentInstance → Action (Unit {0})
  restore none = pure tt
  restore (some agent) =
      if contains ("unavailable" ∷ "rate_limited" ∷ []) agent.state
        && not (is_set agent.active_task)
      then set_found_state (some agent) "ready" none
      else pure tt

  abbrev withdraw : Option AgentInstance → Action (Unit {0})
  withdraw none = pure tt
  withdraw (some agent) = elim agent.active_task [
    | none ↦ set_found_state (some agent) "unavailable" none
    | some _ ↦ pure tt
  ]

  -- One round of `_refresh_provider_health`, from the answer of the adapter's health check.
  unfoldable pub refresh_provider : String → Fields → Action (Unit {0})
  unfolding load_state save_state record_success agent_for_provider set_found_state contains get
      to_str
  refresh_provider provider health = do
    state ← gets (λ rt. load_state O.show O.parse rt provider)
    let status = to_str O.show (get_or "status" (str "unavailable") health)
    if status == "healthy"
        then (do
          (if state.status == "healthy"
              then pure tt
              else (record_success O.show O.parse provider >>= λ _. pure tt))
          agent ← agent_for_provider provider
          restore agent)
        else if status == "unavailable"
        then (do
          modify (
              save_state (record state {
                status = "unavailable";
                last_error =
                    some (to_str O.show (get_or "reason" (str "provider unavailable") health));
              }))
          agent ← agent_for_provider provider
          withdraw agent)
        else pure tt

  -- `health` gives the health checks of the adapters.
  unfoldable pub refresh_provider_health : Dict Fields → List String → Action (Unit {0})
  unfolding refresh_provider lookup
  refresh_provider_health health [] = pure tt
  refresh_provider_health health (provider ∷ providers) =
      (elim (lookup provider health) [
        | none ↦ pure tt
        | some answer ↦ refresh_provider provider answer
      ])
      >> refresh_provider_health health providers

  abbrev probe_if_due : ProviderState → Action (Unit {0})
  probe_if_due state rt = (ok tt, if state.status == "probe" then save_state state rt else rt)

  -- The loop of `controller_tick` that ends the cooldowns.
  unfoldable pub refresh_cooldowns : List String → Action (Unit {0})
  unfolding load_state refresh_state save_state
  refresh_cooldowns [] = pure tt
  refresh_cooldowns (provider ∷ providers) = do
    state ← gets (λ rt. load_state O.show O.parse rt provider)
    now ← gets (λ rt. ok rt.clock)
    probe_if_due (refresh_state state now)
    refresh_cooldowns providers
