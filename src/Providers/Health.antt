-- ===== src/Providers/Health.antt =====
-- providers/health.py: the health of a provider, kept in one file for each, and the classes of
-- failures. A time is a number of seconds. `int` and `float` of a text are a parameter.
pub mod Classes
pub mod Cooldown
use railwarden.Base.{
  ℕ, ◌+◌, String, ◌==◌, Bool, true, false, not, ◌&&◌, ◌||◌, Option, none, some, List, [], ◌∷◌,
  Result, ok, err, Message, value_error, runtime_error, type_error, lookup, insert, contains, leb,
  if◌then◌else◌, ◌>>=◌,
}
use railwarden.Text.{lower, has_text, shorten}
use railwarden.Value.{
  Value, null, num, str, flag, arr, obj, Fields, end, field, get, get_or, truthy, Show, to_str,
}
use railwarden.Runtime.{Runtime, Action}

pub record ProviderState : Type 0 where
  pub name : String
  pub status : String
  pub failure_kind : Option String
  pub failure_count : ℕ
  pub cooldown_until : Option ℕ
  pub last_failure_at : Option ℕ
  pub last_success_at : Option ℕ
  pub last_error : Option String
  pub matched_pattern : Option String

abbrev pub healthy : String → ProviderState
healthy provider = record {
  name = provider;
  status = "healthy";
  failure_kind = none;
  failure_count = 0;
  cooldown_until = none;
  last_failure_at = none;
  last_success_at = none;
  last_error = none;
  matched_pattern = none;
}

abbrev pub transient_failure_kinds : List String
transient_failure_kinds = "quota_exhausted" ∷ "rate_limited" ∷ "capacity" ∷ []

abbrev pub human_failure_kinds : List String
human_failure_kinds = "authentication" ∷ []

-- The kinds that `classify_failure` looks for first.
abbrev pub first_kinds : List (String × List String)
first_kinds =
    (
      "quota_exhausted",
      "quota exceeded" ∷ "quota exhausted" ∷ "usage limit" ∷ "resource exhausted" ∷ "out of credits"
          ∷ [],
    )
    ∷ ("rate_limited", "rate limit" ∷ "too many requests" ∷ "http 429" ∷ "retry-after" ∷ [])
    ∷ []

-- The other kinds of FAILURE_PATTERNS, in its order.
abbrev pub later_kinds : List (String × List String)
later_kinds =
    (
      "capacity",
      "provider overloaded" ∷ "capacity unavailable" ∷ "temporarily unavailable" ∷ "server busy"
          ∷ [],
    )
    ∷ (
      "git_failure",
      "fatal: not a git repository" ∷ "unable to read current working directory"
          ∷ "permission denied .git" ∷ [],
    )
    ∷ ("workspace_permission", "operation not permitted" ∷ "permission denied" ∷ [])
    ∷ (
      "result_path_unwritable",
      "output-last-message" ∷ "expected result json path" ∷ "result json cannot be placed"
          ∷ "blocked_by_sandbox" ∷ ".railwarden-runtime/results" ∷ ".lfg-runtime/results" ∷ [],
    )
    ∷ (
      "authentication",
      "authentication required" ∷ "invalid access token" ∷ "unauthorized" ∷ "login required"
          ∷ "expired token" ∷ [],
    )
    ∷ (
      "wrapper_quoting_failure",
      "unexpected eof while looking for matching" ∷ "syntax error near unexpected token"
          ∷ "unterminated quoted string" ∷ "bad substitution" ∷ [],
    )
    ∷ (
      "missing_worker_result",
      "missing worker result" ∷ "result json missing" ∷ "no result json" ∷ [],
    )
    ∷ (
      "validation_command_invalid",
      "&;" ∷ "validation command invalid" ∷ "requires argv list" ∷ [],
    )
    ∷ (
      "contract_ownership_gap",
      "changed files outside owned paths" ∷ "ownership gap" ∷ "forbidden path" ∷ [],
    )
    ∷ ("merge_branch_divergence", "non-fast-forward" ∷ "branch divergence" ∷ "merge conflict" ∷ [])
    ∷ ("test_failure", "pytest" ∷ "test failed" ∷ "assertionerror" ∷ [])
    ∷ []

-- The kind, whether it is transient, whether it needs a human, and the pattern.
abbrev pub FailureClass : Type 0
FailureClass = String × Bool × Bool × Option String

-- The first of the patterns that the text contains.
unfoldable pub match_pattern : String → List String → Option String
match_pattern normalized [] = none
match_pattern normalized (pattern ∷ patterns) =
    let rest = match_pattern normalized patterns in
    if has_text pattern normalized then some pattern else rest

-- The loop over the kinds and their patterns.
unfoldable pub match_kind : String → List (String × List String) → Option (String × String)
unfolding match_pattern
match_kind normalized [] = none
match_kind normalized ((kind, patterns) ∷ kinds) =
    let rest = match_kind normalized kinds in
    elim (match_pattern normalized patterns) [ some pattern ↦ some (kind, pattern) | none ↦ rest ]

abbrev pub class_of : String → String → FailureClass
class_of kind pattern =
    (kind, contains transient_failure_kinds kind, contains human_failure_kinds kind, some pattern)

-- The test for a result file that a sandbox refuses.
unfoldable pub names_result_path : String → Bool
names_result_path normalized =
    (has_text "result json" normalized || has_text "output-last-message" normalized)
    && (has_text "sandbox" normalized
        || has_text ".railwarden-runtime/results" normalized
        || has_text ".lfg-runtime/results" normalized)
    && not (has_text "usage limit" normalized)
    && not (has_text "quota" normalized)

-- The returns of `classify_failure`, from what its loops found and its test between them.
unfoldable pub class_from :
    Option (String × String) → Bool → Option (String × String) → FailureClass
unfolding contains
class_from (some (kind, pattern)) hinted later = class_of kind pattern
class_from none true later = ("result_path_unwritable", false, false, some "result json sandbox")
class_from none false (some (kind, pattern)) = class_of kind pattern
class_from none false none = ("adapter_failure", false, false, none)

-- `classify_failure` on the normalized text.
unfoldable pub classify_normalized : String → FailureClass
unfolding class_from match_kind names_result_path
classify_normalized normalized =
    class_from (match_kind normalized first_kinds) (names_result_path normalized)
      (match_kind normalized later_kinds)

unfoldable pub classify_failure : String → FailureClass
unfolding classify_normalized
classify_failure text = classify_normalized (lower text)

abbrev pub text_field : Option String → Value
text_field none = null
text_field (some s) = str s

abbrev pub time_field : Option ℕ → Value
time_field none = null
time_field (some n) = num n

-- `asdict(state)`
abbrev pub state_dict : ProviderState → Fields
state_dict state = field "name" (str state.name) (
    field "status" (str state.status) (
      field "failure_kind" (text_field state.failure_kind) (
        field "failure_count" (num state.failure_count) (
          field "cooldown_until" (time_field state.cooldown_until) (
            field "last_failure_at" (time_field state.last_failure_at) (
              field "last_success_at" (time_field state.last_success_at) (
                field "last_error" (text_field state.last_error)
                  (field "matched_pattern" (text_field state.matched_pattern) end))))))))

unfoldable pub save_state : ProviderState → Runtime → Runtime
unfolding insert
save_state state rt = record rt { health = insert state.name (obj (state_dict state)) rt.health }

unfoldable pub refresh_state : ProviderState → ℕ → ProviderState
refresh_state state now =
    if state.status == "cooldown"
    then elim state.cooldown_until [
      | none ↦ state
      | some until ↦
          if leb until now then record state { status = "probe"; cooldown_until = none } else state
    ]
    else state

module _ (show : Show) (parse : String → Option ℕ) where
  -- `int(value)` and `float(value)`
  unfoldable pub number_of : Value → Result ℕ
  number_of (num n) = ok n
  number_of (flag b) = ok (if b then 1 else 0)
  number_of (str s) = elim (parse s) [
    | some n ↦ ok n
    | none ↦ err (value_error ("invalid literal: " ∷ s ∷ []))
  ]
  number_of _ = err (type_error ("int() argument" ∷ []))

  -- `str(v) if v else None`
  unfoldable pub optional_text : Value → Option String
  unfolding truthy to_str
  optional_text v = if truthy v then some (to_str show v) else none

  -- `float(v) if v else None`
  unfoldable pub optional_time : Value → Result (Option ℕ)
  unfolding truthy number_of
  optional_time v = elim (truthy v) [ true ↦ number_of v >>= λ n. ok (some n) | false ↦ ok none ]

  -- The state that `load_state` builds from a dict.
  unfoldable pub state_of : String → Fields → Result ProviderState
  unfolding get number_of to_str optional_text optional_time
  state_of provider payload = do
    failure_count ← number_of (get_or "failure_count" (num 0) payload)
    cooldown_until ← optional_time (get_or "cooldown_until" null payload)
    last_failure_at ← optional_time (get_or "last_failure_at" null payload)
    last_success_at ← optional_time (get_or "last_success_at" null payload)
    ok (record {
      name = provider;
      status = to_str show (get_or "status" (str "healthy") payload);
      failure_kind = optional_text (get_or "failure_kind" null payload);
      failure_count = failure_count;
      cooldown_until = cooldown_until;
      last_failure_at = last_failure_at;
      last_success_at = last_success_at;
      last_error = optional_text (get_or "last_error" null payload);
      matched_pattern = optional_text (get_or "matched_pattern" null payload);
    })

  -- The rest of `load_state`, from what the file holds.
  abbrev pub state_in : String → Option Value → Result ProviderState
  state_in provider none = ok (healthy provider)
  state_in provider (some (obj payload)) = state_of provider payload
  state_in provider (some _) = err (runtime_error ("Invalid provider state: " ∷ provider ∷ []))

  unfoldable pub load_state : Runtime → String → Result ProviderState
  unfolding lookup state_of
  load_state rt provider = state_in provider (lookup provider rt.health)

  -- The rest of `is_available`, from the refreshed state.
  abbrev pub probed : ProviderState → Action Bool
  probed state rt = (
    ok (state.status == "healthy" || state.status == "probe"),
    if state.status == "probe" then save_state state rt else rt,
  )

  -- The rest of `is_available`, from what `load_state` gives.
  abbrev pub available : Result ProviderState → Action Bool
  available (err e) rt = (err e, rt)
  available (ok state) rt = probed (refresh_state state rt.clock) rt

  unfoldable pub is_available : String → Action Bool
  unfolding load_state refresh_state save_state
  is_available provider rt = available (load_state rt provider) rt

  -- The state that `record_failure` writes.
  abbrev pub failed : ℕ → ℕ → String → FailureClass → ProviderState → ProviderState
  failed now cooldown_seconds error_text (kind, transient, requires_human, pattern) state = record {
    name = state.name;
    status = if transient then "cooldown" else if requires_human then "needs_auth" else "degraded";
    failure_kind = some kind;
    failure_count = state.failure_count + 1;
    cooldown_until = if transient then some (now + cooldown_seconds) else none;
    last_failure_at = some now;
    last_success_at = state.last_success_at;
    last_error = some (shorten 4000 error_text);
    matched_pattern = pattern;
  }

  abbrev write_state : ProviderState → Action ProviderState
  write_state state rt = (ok state, save_state state rt)

  abbrev pub failing : String → ℕ → Result ProviderState → Action ProviderState
  failing error_text cooldown_seconds (err e) rt = (err e, rt)
  failing error_text cooldown_seconds (ok state) rt =
      write_state (failed rt.clock cooldown_seconds error_text (classify_failure error_text) state)
        rt

  unfoldable pub record_failure : String → String → ℕ → Action ProviderState
  unfolding load_state save_state
  record_failure provider error_text cooldown_seconds rt =
      failing error_text cooldown_seconds (load_state rt provider) rt

  unfoldable pub record_success : String → Action ProviderState
  unfolding save_state
  record_success provider rt =
      write_state (record (healthy provider) { last_success_at = some rt.clock }) rt
