-- ===== src/Engine/Outside.antt =====
-- What the controller uses that is not in the repository: Python's conversions between texts and
-- values, the environment, and the state of a run, which is the runtime directory with the
-- repository.
use railwarden.Base.{ℕ, String, Bool, Option, List, Dict, Result, Message}
use railwarden.Base.Exec.{Exec}
use railwarden.Value.{Value, Fields, Show}
use railwarden.Runtime.{Runtime, Action}
use railwarden.World.{World}

pub record Outside : Type 0 where
  -- `str(value)` for a value that is neither a text nor `None`
  pub show : Show
  -- `int(text)` and `float(text)`
  pub parse : String → Option ℕ
  -- `urllib.parse.parse_qsl`
  pub parse_qsl : String → List (String × String)
  -- `json.dumps(value, sort_keys=True)`
  pub dumps : Value → String
  -- `json.loads(redacted(json.dumps(value)))`: regular expressions replace what looks like a secret
  pub redacted_json : Value → Value
  -- `shlex.split(text)`; `none` is a ValueError
  pub split : String → Option (List String)
  -- whether a first word looks like a command, a regular expression
  pub is_token : String → Bool
  -- `jsonschema.validate`: the message of the error that it raises
  pub schema_error : Fields → Option Message
  -- whether the operating system has a process with the number
  pub process_alive : ℕ → Bool
  -- `os.environ`
  pub environ : Dict String

module _ (W : World) where
  pub record Sys : Type 0 where
    pub rt : Runtime
    pub repo : W.State

  -- A statement that touches the runtime directory alone, and one that touches the repository alone.
  unfoldable pub in_runtime : {A : Type 0} → Action A → Exec Sys A
  in_runtime m s = let (result, rt) = m s.rt in (result, record s { rt = rt })

  unfoldable pub in_repository : {A : Type 0} → Exec W.State A → Exec Sys A
  in_repository m s = let (result, repo) = m s.repo in (result, record s { repo = repo })

  -- What the repository answers.
  abbrev pub asks : {A : Type 0} → (W.State → Result A) → Exec Sys A
  asks f s = (f s.repo, s)
