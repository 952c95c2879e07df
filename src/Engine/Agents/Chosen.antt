-- ===== src/Engine/Agents/Chosen.antt =====
-- Which agent stands for a provider.
use railwarden.Base.{
  String, Bool, true, false, Bool-cases, Option, none, some, List, [], ◌∷◌, ok, IsIn, All, ◌≡◌,
  refl, subst, ◌⊎◌, inl, inr,
}
use railwarden.Base.Exec.{run-eq-ok, pure-eq-ok}
use railwarden.Config.{ProjectConfig}
use railwarden.Runtime.{Runtime}
use railwarden.Agents.Session.{AgentInstance, SessionProfile, agents}
use railwarden.Engine.Outside.{Outside}
use railwarden.Engine.Agents.{
  uses_adapter, runs_model_of, first_agent, agent_among, load_profile, agent_for_provider,
}

-- What a search for the first agent that passes a test finds.
abbrev Found : (AgentInstance → Bool) → List AgentInstance → Option AgentInstance → Type 0
Found test among none = All (λ agent. test agent ≡ false) among
Found test among (some agent) = IsIn agent among × (test agent ≡ true)

first_agent-Found :
    (test : AgentInstance → Bool) (among : List AgentInstance)
    → Found test among (first_agent test among)
unfolding first_agent
first_agent-Found test [] = tt
first_agent-Found test (agent ∷ among) = elim (Bool-cases (test agent)) [
  | inl passes ↦ rw passes (inl refl, passes)
  | inr fails ↦ rw fails (later (first_agent test among) (first_agent-Found test among) fails)
]
  where
    later :
        (found : Option AgentInstance)
        → Found test among found
        → test agent ≡ false
        → Found test (agent ∷ among) found
    later none all fails = (fails, all)
    later (some a) (isin, passes) fails = (inr isin, passes)

-- The agent for a provider: one that uses it as its adapter, or, where there is none, one whose
-- model is the provider's; nothing exactly if there is neither.
abbrev pub Represents : String → List AgentInstance → Option AgentInstance → Type 0
Represents provider among none =
    All (λ agent. uses_adapter provider agent ≡ false) among
    × All (λ agent. runs_model_of provider agent ≡ false) among
Represents provider among (some agent) =
    IsIn agent among
    × ((uses_adapter provider agent ≡ true)
        ⊎ (All (λ other. uses_adapter provider other ≡ false) among
            × (runs_model_of provider agent ≡ true)))

agent_among-Represents :
    (provider : String) (among : List AgentInstance)
    → Represents provider among (agent_among provider among)
unfolding agent_among
agent_among-Represents provider among =
    chosen (first_agent (uses_adapter provider) among)
      (first_agent-Found (uses_adapter provider) among) (first_agent (runs_model_of provider) among)
      (first_agent-Found (runs_model_of provider) among)
  where
    chosen :
        (first : Option AgentInstance)
        → Found (uses_adapter provider) among first
        → (second : Option AgentInstance) → Found (runs_model_of provider) among second
        → Represents provider among (elim first [ some agent ↦ some agent | none ↦ second ])
    chosen (some agent) (isin, uses) second _ = (isin, inl uses)
    chosen none unused (some agent) (isin, runs) = (isin, inr (unused, runs))
    chosen none unused none unrun = (unused, unrun)

module _ (O : Outside) (config : ProjectConfig) where
  -- Whenever `_agent_for_provider` returns, the session profile was loaded, and what it returns
  -- is an agent of the profile that uses the provider as its adapter; or, if no agent does, one
  -- whose model is the provider's; and `None` only if there is neither.
  pub agent_for_provider-Represents :
      (provider : String) (rt t : Runtime) (found : Option AgentInstance)
      → agent_for_provider O config provider rt ≡ (ok found, t)
      → (profile : SessionProfile) × (load_profile O config rt ≡ (ok profile, t))
        × Represents provider (agents profile) found
  unfolding agent_for_provider
  agent_for_provider-Represents provider rt t found e =
      let (profile, u, loaded, rest) = run-eq-ok (load_profile O config) _ rt t found e in
      let (same, kept) = pure-eq-ok (agent_among provider (agents profile)) found u t rest in
      (
        profile,
        subst (λ v. load_profile O config rt ≡ (ok profile, v)) kept loaded,
        subst (Represents provider (agents profile)) same
            (agent_among-Represents provider (agents profile)),
      )
