-- ===== src/Providers/Health/Cooldown.antt =====
-- When a provider may be used after a failure, across the file that keeps its state.
use railwarden.Base.{
  ℕ, zero, suc, ◌+◌, ◌<◌, String, ◌==◌, Bool, true, false, ◌&&◌, ◌||◌, bind-eq-ok, subst, Option,
  none, some, Result, ok, err, lookup, lookup-insert, leb, ltb, if◌then◌else◌, ◌≡◌, refl, ap, sym,
  ◌∙◌, eq_refl, arith, Bool-cases, inl, inr,
}
use railwarden.Value.{Value, null, num, str, obj, arr, flag, get, get_or, truthy, Show, to_str}
use railwarden.Runtime.{Runtime}
use railwarden.Providers.Health.{
  ProviderState, healthy, FailureClass, classify_failure, text_field, time_field, state_dict,
  save_state, refresh_state, number_of, optional_text, optional_time, state_of, state_in,
  load_state, available, is_available, failed, failing, record_failure,
}

-- An empty text and the time 0 are read as `None`.
abbrev pub kept_text : Option String → Option String
kept_text none = none
kept_text (some s) = if s == "" then none else some s

abbrev pub kept_time : Option ℕ → Option ℕ
kept_time none = none
kept_time (some zero) = none
kept_time (some (suc n)) = some (suc n)

abbrev pub kept : ProviderState → ProviderState
kept state = record {
  name = state.name;
  status = state.status;
  failure_kind = kept_text state.failure_kind;
  failure_count = state.failure_count;
  cooldown_until = kept_time state.cooldown_until;
  last_failure_at = kept_time state.last_failure_at;
  last_success_at = kept_time state.last_success_at;
  last_error = kept_text state.last_error;
  matched_pattern = kept_text state.matched_pattern;
}

module _ (show : Show) (parse : String → Option ℕ) where
  optional_time_kept : (o : Option ℕ) → optional_time show parse (time_field o) ≡ ok (kept_time o)
  unfolding optional_time truthy number_of
  optional_time_kept none = refl
  optional_time_kept (some zero) = refl
  optional_time_kept (some (suc n)) =
      let positive : ltb 0 (suc n) ≡ true = ground arith in rw (positive, optional_time) refl

  optional_text_kept : (o : Option String) → optional_text show parse (text_field o) ≡ kept_text o
  unfolding optional_text truthy to_str
  optional_text_kept none = refl
  optional_text_kept (some s) = elim (Bool-cases (s == "")) [
    | inl empty ↦ rw empty
    | inr full ↦ rw full
  ]

  state_of-state_dict :
      (state : ProviderState) → state_of show parse state.name (state_dict state) ≡ ok (kept state)
  unfolding state_of get to_str
  state_of-state_dict state = rw (optional_time_kept state.cooldown_until) (
      rw (optional_time_kept state.last_failure_at) (
        rw
          (
            optional_time_kept state.last_success_at,
            optional_text_kept state.failure_kind,
            optional_text_kept state.last_error,
            optional_text_kept state.matched_pattern,
          )
          refl))

  -- What `save_state` writes is what `load_state` reads, for every provider state, except that an
  -- empty text and the time 0 are read as `None`.
  pub load_state-save_state :
      (state : ProviderState) (rt : Runtime)
      → load_state show parse (save_state state rt) state.name ≡ ok (kept state)
  unfolding load_state save_state
  load_state-save_state state rt =
      ap (state_in show parse state.name) (
        lookup-insert state.name state.name stored rt.health
        ∙ ap (λ b. if b then some stored else lookup state.name rt.health) (eq_refl state.name))
      ∙ state_of-state_dict state
    where
      stored : Value
      stored = obj (state_dict state)

  same_name : (p q : ProviderState) → ok p ≡ ok q → q.name ≡ p.name
  same_name p q e = let same : p ≡ q = cc in sym (ap (λ r. r.name) same)

  load_state-name :
      (rt : Runtime) (provider : String) (state : ProviderState)
      → load_state show parse rt provider ≡ ok state
      → state.name ≡ provider
  unfolding load_state state_of
  load_state-name rt provider state e = name_of (lookup provider rt.health) e
    where
      name_of :
          (o : Option Value) → state_in show parse provider o ≡ ok state → state.name ≡ provider
      name_of none e = let same : healthy provider ≡ state = cc in sym (ap (λ r. r.name) same)
      name_of (some (obj payload)) e =
          let (_, _, e1) =
            bind-eq-ok (number_of show parse (get_or "failure_count" (num 0) payload)) _ e in
          let (_, _, e2) =
            bind-eq-ok (optional_time show parse (get_or "cooldown_until" null payload)) _ e1 in
          let (_, _, e3) =
            bind-eq-ok (optional_time show parse (get_or "last_failure_at" null payload)) _ e2 in
          let (_, _, e4) =
            bind-eq-ok (optional_time show parse (get_or "last_success_at" null payload)) _ e3 in
          same_name _ state e4
      name_of (some (str _)) e = cc
      name_of (some (num _)) e = cc
      name_of (some (flag _)) e = cc
      name_of (some null) e = cc
      name_of (some (arr _)) e = cc

kept_positive : (u : ℕ) → 0 < u → kept_time (some u) ≡ some u
kept_positive zero h = absurd (omega arith)
kept_positive (suc n) h = refl

abbrev usable : ProviderState → Bool
usable state = state.status == "healthy" || state.status == "probe"

module _ (show : Show) (parse : String → Option ℕ) where
  refreshed :
      (class : FailureClass) (clock cooldown_seconds now : ℕ) (error_text : String)
      (old : ProviderState)
      → 0 < clock + cooldown_seconds
      → usable
          (refresh_state (kept (failed show parse clock cooldown_seconds error_text class old)) now)
        ≡ (class.1 && leb (clock + cooldown_seconds) now)
  unfolding refresh_state
  refreshed (kind, true, human, pattern) clock cooldown_seconds now error_text old h =
      rw (kept_positive (clock + cooldown_seconds) h)
        (elim (Bool-cases (leb (clock + cooldown_seconds) now)) [
          | inl over ↦ rw over
          | inr waiting ↦ rw waiting
        ])
  refreshed (kind, false, true, pattern) clock cooldown_seconds now error_text old h = refl
  refreshed (kind, false, false, pattern) clock cooldown_seconds now error_text old h = refl

  -- After `record_failure` at a time, with a positive end of the cooldown, `is_available` returns
  -- at every later or earlier reading of the clock: true exactly if the failure is transient and
  -- the cooldown is over.
  pub is_available-record_failure :
      (rt t : Runtime) (provider error_text : String) (cooldown_seconds now : ℕ)
      (state : ProviderState)
      → record_failure show parse provider error_text cooldown_seconds rt ≡ (ok state, t)
      → 0 < rt.clock + cooldown_seconds
      → (is_available show parse provider (record t { clock = now })).0
        ≡ ok ((classify_failure error_text).1 && leb (rt.clock + cooldown_seconds) now)
  unfolding is_available record_failure load_state save_state
  is_available-record_failure rt t provider error_text cooldown_seconds now state e h =
      from_loaded (load_state show parse rt provider) refl e
    where
      from_loaded :
          (r : Result ProviderState)
          → load_state show parse rt provider ≡ r
          → failing show parse error_text cooldown_seconds r rt ≡ (ok state, t)
          → (is_available show parse provider (record t { clock = now })).0
            ≡ ok ((classify_failure error_text).1 && leb (rt.clock + cooldown_seconds) now)
      from_loaded (err raised) loaded e = cc
      from_loaded (ok old) loaded e =
          let written : ProviderState =
            failed show parse rt.clock cooldown_seconds error_text (classify_failure error_text)
              old in
          let stored : save_state written rt ≡ t = cc in
          let read : load_state show parse (save_state written rt) provider ≡ ok (kept written) =
            subst (λ p. load_state show parse (save_state written rt) p ≡ ok (kept written))
              (load_state-name show parse rt provider old loaded)
              (load_state-save_state show parse written rt) in
          subst
            (λ u.
              (is_available show parse provider (record u { clock = now })).0
              ≡ ok ((classify_failure error_text).1 && leb (rt.clock + cooldown_seconds) now))
            stored
            (ap (λ r. (available show parse r (record (save_state written rt) { clock = now })).0)
                read
              ∙ ap ok (
                  refreshed (classify_failure error_text) rt.clock cooldown_seconds now error_text
                    old h))
