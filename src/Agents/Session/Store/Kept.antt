-- ===== src/Agents/Session/Store/Kept.antt =====
-- A session profile through its file.
use railwarden.Base.{
  ℕ, String, Bool, true, false, Option, some, List, ok, Dict, All, ◌≡◌, refl, arith,
}
use railwarden.Config.{ProjectConfig}
use railwarden.Value.{Value, obj, Show}
use railwarden.Runtime.{Runtime}
use railwarden.Agents.Session.{SessionProfile}
use railwarden.Agents.Session.Json.{session_fields}
use railwarden.Agents.Session.Json.Reload.{IsWritten, IsWritten?, session_from_json-session_fields}
use railwarden.Agents.Session.Store.{
  leaks, assert_no_raw_secret, save_session_profile, session_in, load_session_profile,
}

module _ (dumps : Value → String) (environ : Dict String) (show : Show) (parse : String → Option ℕ)
    (parse_qsl : String → List (String × String)) where
  saved :
      (profile : SessionProfile) (rt t : Runtime)
      → save_session_profile dumps environ profile rt ≡ (ok tt, t)
      → (leaks (dumps (obj (session_fields profile))) environ ≡ false)
        × (t ≡ record rt { session = some (obj (session_fields profile)) })
  unfolding save_session_profile assert_no_raw_secret
  saved profile rt t e = by_test (leaks (dumps (obj (session_fields profile))) environ) refl
    where
      by_test :
          (b : Bool)
          → leaks (dumps (obj (session_fields profile))) environ ≡ b
          → (leaks (dumps (obj (session_fields profile))) environ ≡ false)
            × (t ≡ record rt { session = some (obj (session_fields profile)) })
      by_test true raw = absurd (cc (raw, e))
      by_test false clean = (clean, ground (arith, clean))

  -- Whenever `save_session_profile` returns, the dumped profile holds no value of a secret
  -- variable of the environment; and if its optional texts are not empty, `load_session_profile`
  -- gives the profile back and changes nothing, for every agent, worker or not.
  pub load_session_profile-save_session_profile :
      (config : ProjectConfig) (profile : SessionProfile) (rt t : Runtime)
      → save_session_profile dumps environ profile rt ≡ (ok tt, t)
      → IsWritten profile.orchestrator
      → IsWritten profile.architect
      → All IsWritten profile.workers
      → IsWritten? profile.reviewer
      → IsWritten? profile.validator
      → (leaks (dumps (obj (session_fields profile))) environ ≡ false)
        × (load_session_profile dumps environ show parse parse_qsl config t ≡ (ok profile, t))
  unfolding load_session_profile session_in
  load_session_profile-save_session_profile config profile rt t e orchestrator architect workers
        reviewer validator =
      let (clean, after) = saved profile rt t e in
      (
        clean,
        rw (
          after,
          session_from_json-session_fields show parse rt.clock profile orchestrator architect
              workers reviewer validator,
        ),
      )
