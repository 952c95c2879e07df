-- ===== src/Agents/Quota/Start.antt =====
-- When an agent's quota stops it.
use railwarden.Base.{
  ℕ, ◌<◌, String, Bool, true, false, Option, none, some, Result, ok, ◌≡◌, refl, sym, ap, subst, ◌∙◌,
  ◌↔◌, ◌≢◌, bind-eq-ok, arith,
}
use railwarden.Value.{Show}
use railwarden.Runtime.{Runtime}
use railwarden.Agents.Session.{AgentInstance, QuotaState, QuotaPolicy}
use railwarden.Agents.Quota.{QuotaVerdict, verdict_of, load_quota, quota_allows_start}

-- What the policy says of a state, with no reference to the order of the tests.
abbrev pub Stopped : QuotaPolicy → QuotaState → Type 0
Stopped policy state =
    (remaining : ℕ) × (state.remaining_percent ≡ some remaining)
    × (remaining < policy.pause_threshold_percent)
    × (policy.hard_stop_below_pause ≡ true)

some-injective : (m n : ℕ) → ◌≡◌ {A = Option ℕ} (some m) (some n) → m ≡ n
some-injective m n h = cc

none-ne-some : (n : ℕ) → ◌≢◌ {A = Option ℕ} none (some n)
none-ne-some n h = cc

module _ (show : Show) (parse : String → Option ℕ) where
  stops :
      (policy : QuotaPolicy) (state : QuotaState) (remaining : Option ℕ)
      → state.remaining_percent ≡ remaining
      → ((verdict_of show parse policy state remaining).0 ≡ false) ↔ Stopped policy state
  unfolding verdict_of
  stops policy state none e =
      (λ allowed. absurd (cc), λ stopped. absurd (none-ne-some stopped.0 (sym e ∙ stopped.1)))
  stops policy state (some left) e = (
    λ stopped. (left, e, ground arith, ground arith),
    λ stopped.
        let same = some-injective left stopped.0 (sym e ∙ stopped.1) in
        let below = stopped.2 in let hard = stopped.3 in ground arith,
  )

  -- Whenever `quota_allows_start` returns, the state is the one that `load_quota` reads, and the
  -- agent is stopped exactly if what remains is known, lies below the threshold of the agent's
  -- policy for a pause, and the policy stops there; an unknown remainder never stops an agent.
  pub quota_allows_start-Stopped :
      (agent : AgentInstance) (rt : Runtime) (allowed : Bool) (state : QuotaState) (reason : String)
      → quota_allows_start show parse agent rt ≡ ok (allowed, state, reason)
      → (load_quota show parse agent rt ≡ ok state)
        × ((allowed ≡ false) ↔ Stopped agent.quota_policy state)
  unfolding quota_allows_start verdict_of
  quota_allows_start-Stopped agent rt allowed state reason e =
      let (loaded, read, e') = bind-eq-ok (load_quota show parse agent rt) _ e in
      let same = ok-injective _ _ e' in
      let found = kept_state agent.quota_policy loaded loaded.remaining_percent in
      let which : loaded ≡ state = sym found ∙ ap (λ v. v.1) same in
      let verdict = ap (λ v. v.0) same in
      (
        read ∙ ap ok which,
        subst (λ s. (allowed ≡ false) ↔ Stopped agent.quota_policy s) which
            (subst (λ b. (b ≡ false) ↔ Stopped agent.quota_policy loaded) verdict
              (stops agent.quota_policy loaded loaded.remaining_percent refl)),
      )
    where
      ok-injective : (v w : QuotaVerdict) → ◌≡◌ {A = Result QuotaVerdict} (ok v) (ok w) → v ≡ w
      ok-injective v w h = cc

      kept_state :
          (policy : QuotaPolicy) (loaded : QuotaState) (remaining : Option ℕ)
          → (verdict_of show parse policy loaded remaining).1 ≡ loaded
      kept_state policy loaded none = refl
      kept_state policy loaded (some left) = ground arith
