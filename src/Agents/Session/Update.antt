-- ===== src/Agents/Session/Update.antt =====
-- What an update of one agent does to the roster.
use railwarden.Base.{
  ℕ, String, eq_iff, Option, none, some, List, [], ◌∷◌, ◌++◌, map, ◌≡◌, refl, ap, ◌∙◌, arith,
}
use railwarden.Agents.Session.{
  AgentInstance, SessionProfile, agents, optional, swapped, swapped_optional, update_agent,
}

map_append :
    (agent : AgentInstance) (xs ys : List AgentInstance)
    → map (swapped agent) (xs ++ ys) ≡ map (swapped agent) xs ++ map (swapped agent) ys
map_append agent [] ys = refl
map_append agent (x ∷ xs) ys = ap (λ rest. swapped agent x ∷ rest) (map_append agent xs ys)

optional_lem :
    (agent : AgentInstance) (item : Option AgentInstance)
    → optional (swapped_optional agent item) ≡ map (swapped agent) (optional item)
optional_lem agent none = refl
optional_lem agent (some item) = refl

abbrev pub ids : List AgentInstance → List String
ids among = map (λ item. item.agent_id) among

swapped-ids : (agent item : AgentInstance) → (swapped agent item).agent_id ≡ item.agent_id
swapped-ids agent item = ground (arith, eq_iff item.agent_id agent.agent_id)

map-ids :
    (agent : AgentInstance) (among : List AgentInstance)
    → ids (map (swapped agent) among) ≡ ids among
map-ids agent [] = refl
map-ids agent (item ∷ among) = rw (swapped-ids agent item, map-ids agent among)

-- The agents of an updated profile are those of the profile in the same order, the new agent in
-- the place of every agent with its id; so the ids stay.
pub agents-update_agent :
    (now : ℕ) (profile : SessionProfile) (agent : AgentInstance)
    → (agents (update_agent now profile agent) ≡ map (swapped agent) (agents profile))
      × (ids (agents (update_agent now profile agent)) ≡ ids (agents profile))
unfolding update_agent
agents-update_agent now profile agent =
    let same =
      ap (λ rest. swapped agent profile.orchestrator ∷ swapped agent profile.architect ∷ rest)
        (all profile.workers profile.reviewer profile.validator) in
    (same, ap ids same ∙ map-ids agent (agents profile))
  where
    all :
        (workers : List AgentInstance) (reviewer validator : Option AgentInstance)
        → map (swapped agent) workers
            ++ (optional (swapped_optional agent reviewer)
                ++ optional (swapped_optional agent validator))
          ≡ map (swapped agent) (workers ++ (optional reviewer ++ optional validator))
    all workers reviewer validator = rw (
      optional_lem agent reviewer,
      optional_lem agent validator,
      map_append agent workers (optional reviewer ++ optional validator),
      map_append agent (optional reviewer) (optional validator),
    )
