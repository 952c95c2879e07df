-- ===== src/Agents/Session/Store.antt =====
-- runtime/session.py: the file of the session profile. `json.dumps` and the environment are
-- parameters of the check for raw secrets.
pub mod Kept
use railwarden.Base.{
  ℕ, String, ◌==◌, Bool, true, false, not, ◌&&◌, ◌||◌, Option, none, some, List, [], ◌∷◌, Result,
  ok, err, configuration, raise_if, Dict,
}
use railwarden.Text.{has_text, ends_with}
use railwarden.Config.{ProjectConfig}
use railwarden.Value.{Value, obj, Show}
use railwarden.Runtime.{Runtime, Action, gets, modify, pure, ◌>>=◌, ◌>>◌}
use railwarden.Agents.Session.{SessionProfile, default_session_profile}
use railwarden.Agents.Session.Json.{session_fields, session_from_json}

-- `env_name.endswith(("API_KEY", "TOKEN", "SECRET"))`
unfoldable pub is_secret_name : String → Bool
unfolding ends_with
is_secret_name name = ends_with name "API_KEY" || ends_with name "TOKEN" || ends_with name "SECRET"

-- The loop of `_assert_no_raw_secret`, over `os.environ.items()`.
unfoldable pub leaks : String → Dict String → Bool
unfolding is_secret_name has_text
leaks text [] = false
leaks text ((name, value) ∷ environ) =
    is_secret_name name && (not (value == "") && has_text value text) || leaks text environ

module _ (dumps : Value → String) (environ : Dict String) where
  unfoldable pub assert_no_raw_secret : Value → Result (Unit {0})
  unfolding leaks
  assert_no_raw_secret payload =
      raise_if (leaks (dumps payload) environ)
        (configuration ("Session profile contains a raw secret value" ∷ []))

  unfoldable pub save_session_profile : SessionProfile → Action (Unit {0})
  unfolding assert_no_raw_secret session_fields
  save_session_profile profile = do
    gets (λ _. assert_no_raw_secret (obj (session_fields profile)))
    modify (λ rt. record rt { session = some (obj (session_fields profile)) })

  module _ (show : Show) (parse : String → Option ℕ)
      (parse_qsl : String → List (String × String)) where
    -- The rest of `load_session_profile`, from the file.
    unfoldable pub session_in : ProjectConfig → Option Value → Action SessionProfile
    unfolding save_session_profile session_from_json default_session_profile
    session_in config none = do
      profile ← gets (λ rt. default_session_profile parse_qsl rt.clock config "default")
      save_session_profile profile
      pure profile
    session_in config (some (obj payload)) =
        gets (λ rt. session_from_json show parse rt.clock payload)
    session_in config (some _) = gets (λ rt. err (configuration ("Invalid session profile" ∷ [])))

    unfoldable pub load_session_profile : ProjectConfig → Action SessionProfile
    unfolding session_in
    load_session_profile config rt = session_in config rt.session rt
