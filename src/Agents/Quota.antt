-- ===== src/Agents/Quota.antt =====
-- runtime/quota.py: whether an agent's quota lets it start. A percentage is a whole number.
pub mod Start
use Prim.Native.Char.{char}
use railwarden.Base.{
  ℕ, String, ◌<>◌, Bool, true, false, not, ◌&&◌, Option, none, some, [], ◌∷◌, Result, ok, err,
  key_error, runtime_error, ◌>>=◌, lookup, insert, ltb, if◌then◌else◌,
}
use railwarden.Text.{replace_char}
use railwarden.Value.{
  Value, null, num, str, obj, Fields, end, field, get, get_or, truthy, Show, to_str,
}
use railwarden.Runtime.{Runtime}
use railwarden.Providers.Health.{number_of}
use railwarden.Agents.Session.{AgentInstance, QuotaState, QuotaPolicy}
use railwarden.Agents.Session.Json.{nullable_num, text_at}

-- The name of the file of `quota_path`, without its suffix.
unfoldable pub quota_name : String → String → String
unfolding replace_char
quota_name provider model =
    replace_char 58 (char 95 tt) (replace_char 47 (char 95 tt) (provider <> "-" <> model))

unfoldable pub quota_file : AgentInstance → String
unfolding quota_name
quota_file agent = quota_name agent.model_profile.provider agent.model_profile.model

abbrev confidence_of : Option ℕ → String
confidence_of none = "unknown"
confidence_of (some _) = "manual"

abbrev pub quota_fields : QuotaState → Fields
quota_fields state = field "provider" (str state.provider) (
    field "model" (str state.model) (
      field "used_tokens" (num state.used_tokens) (
        field "limit_tokens" (nullable_num state.limit_tokens) (
          field "reset_at" (nullable_num state.reset_at) (
            field "remaining_percent" (nullable_num state.remaining_percent) (
              field "confidence" (str state.confidence)
                (field "updated_at" (num state.updated_at) end)))))))

unfoldable pub save_quota : QuotaState → Runtime → Runtime
unfolding quota_name insert
save_quota state rt = record rt {
  quotas = insert (quota_name state.provider state.model) (obj (quota_fields state)) rt.quotas;
}

-- Whether the agent may start, with the quota and the reason.
abbrev pub QuotaVerdict : Type 0
QuotaVerdict = Bool × QuotaState × String

module _ (show : Show) (parse : String → Option ℕ) where
  -- `int(v) if v else None` and `float(v) if v else None`
  abbrev number_if_true : Value → Result (Option ℕ)
  number_if_true v = if truthy v then (number_of show parse v >>= λ n. ok (some n)) else ok none

  -- `float(v) if v is not None else None`
  abbrev number_or_none : Value → Result (Option ℕ)
  number_or_none null = ok none
  number_or_none v = number_of show parse v >>= λ n. ok (some n)

  unfoldable pub quota_from_json : ℕ → Fields → Result QuotaState
  unfolding get truthy number_of to_str text_at
  quota_from_json now payload = do
    provider ← text_at show parse "provider" payload
    model ← text_at show parse "model" payload
    used_tokens ← number_of show parse (get_or "used_tokens" (num 0) payload)
    limit_tokens ← number_if_true (get_or "limit_tokens" null payload)
    reset_at ← number_if_true (get_or "reset_at" null payload)
    remaining_percent ← number_or_none (get_or "remaining_percent" null payload)
    updated_at ← number_of show parse (get_or "updated_at" (num now) payload)
    ok (record {
      provider = provider;
      model = model;
      used_tokens = used_tokens;
      limit_tokens = limit_tokens;
      reset_at = reset_at;
      remaining_percent = remaining_percent;
      confidence = to_str show (get_or "confidence" (str "unknown") payload);
      updated_at = updated_at;
    })

  -- The rest of `load_quota`, from the file.
  unfoldable pub quota_in : AgentInstance → ℕ → Option Value → Result QuotaState
  unfolding quota_from_json
  quota_in agent now none = ok (record {
    provider = agent.model_profile.provider;
    model = agent.model_profile.model;
    used_tokens = 0;
    limit_tokens = agent.quota_policy.manual_token_limit;
    reset_at = none;
    remaining_percent = none;
    confidence = confidence_of agent.quota_policy.manual_token_limit;
    updated_at = now;
  })
  quota_in agent now (some (obj payload)) = quota_from_json now payload
  quota_in agent now (some _) = err (runtime_error ("Invalid quota state" ∷ []))

  unfoldable pub load_quota : AgentInstance → Runtime → Result QuotaState
  unfolding quota_in quota_file lookup
  load_quota agent rt = quota_in agent rt.clock (lookup (quota_file agent) rt.quotas)

  -- The rest of `quota_allows_start`, from the state and what remains.
  unfoldable pub verdict_of : QuotaPolicy → QuotaState → Option ℕ → QuotaVerdict
  verdict_of policy state none = (true, state, "unknown")
  verdict_of policy state (some remaining) =
      if ltb remaining policy.pause_threshold_percent && policy.hard_stop_below_pause
      then (false, state, "pause-threshold")
      else if ltb remaining policy.warning_threshold_percent
      then (true, state, "warning-threshold")
      else (true, state, "ok")

  unfoldable pub quota_allows_start : AgentInstance → Runtime → Result QuotaVerdict
  unfolding load_quota verdict_of
  quota_allows_start agent rt = do
    state ← load_quota agent rt
    ok (verdict_of agent.quota_policy state state.remaining_percent)
