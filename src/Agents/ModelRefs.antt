-- ===== src/Agents/ModelRefs.antt =====
-- runtime/model_refs.py: the text that names a model, `provider:model@base-url?options`. The parse of
-- the query, `urllib.parse.parse_qsl`, is a parameter; `options` is the dict of its pairs.
use railwarden.Base.{
  String, ◌<>◌, ◌==◌, starts_with, Bool, true, false, not, ◌||◌, Option, none, some, List, [], ◌∷◌,
  Result, ok, err, configuration, raise_if, ◌>>=◌, ◌>>◌, Dict, lookup, insert, keys, contains,
  sorted, if◌then◌else◌,
}
use railwarden.Text.{strip, partition}

abbrev pub known_providers : List String
known_providers =
    "codex" ∷ "antigravity" ∷ "composer" ∷ "openai" ∷ "anthropic" ∷ "gemini" ∷ "azure-foundry"
    ∷ "ollama" ∷ "openai-compatible" ∷ []

pub record ModelRef : Type 0 where
  pub provider : String
  pub model : String
  pub base_url : Option String
  pub options : Option (Dict String)

abbrev pub options_of : ModelRef → Dict String
options_of ref = elim ref.options [ none ↦ [] | some options ↦ options ]

unfoldable pub reasoning_effort : ModelRef → Option String
unfolding lookup
reasoning_effort ref = lookup "reasoning" (options_of ref)

-- `options[key]` for a key of the dict
abbrev value_of : Dict String → String → String
value_of options key = elim (lookup key options) [ none ↦ "" | some value ↦ value ]

-- `"&".join(f"{key}={options[key]}" for key in keys)`
unfoldable pub joined : Dict String → List String → String
unfolding lookup
joined options [] = ""
joined options (key ∷ []) = key <> "=" <> value_of options key
joined options (key ∷ next ∷ more) =
    key <> "=" <> value_of options key <> "&" <> joined options (next ∷ more)

abbrev with_base_url : String → Option String → String
with_base_url value none = value
with_base_url value (some base_url) = if base_url == "" then value else value <> "@" <> base_url

abbrev with_options : String → Dict String → String
with_options value [] = value
with_options value (option ∷ options) =
    value <> "?" <> joined (option ∷ options) (sorted (keys (option ∷ options)))

unfoldable pub normalized : ModelRef → String
unfolding joined keys sorted
normalized ref =
    with_options (with_base_url (ref.provider <> ":" <> ref.model) ref.base_url) (options_of ref)

-- `base_url.startswith(("http://", "https://"))`
unfoldable pub is_absolute_url : String → Bool
is_absolute_url url = starts_with url "http://" || starts_with url "https://"

abbrev pub SplitModel : Type 0
SplitModel = String × Option String

-- The checks after `partition("@")` for a provider whose model carries a URL.
unfoldable pub checked_base_url : String → String → String → Result SplitModel
unfolding is_absolute_url
checked_base_url provider model base_url = do
  raise_if (model == "" || base_url == "")
      (configuration ("Invalid " ∷ provider ∷ " model ref" ∷ []))
  raise_if (not (is_absolute_url base_url))
      (configuration (provider ∷ " base URL must be absolute" ∷ []))
  ok (model, some base_url)

-- `_split_model_base_url` for the two API providers, from the parts.
abbrev split_api : String → String → String × Bool × String → Result SplitModel
split_api provider model_part (model, true, base_url) = checked_base_url provider model base_url
split_api provider model_part (model, false, base_url) =
    if provider == "openai-compatible"
    then err (configuration (provider ∷ " model refs must include @<base-url>" ∷ []))
    else ok (model_part, none)

abbrev split_ollama : String × Bool × String → Result SplitModel
split_ollama (model, true, base_url) = checked_base_url "ollama" model base_url
split_ollama (model, false, base_url) = ok (model, some "http://localhost:11434")

unfoldable pub split_model_base_url : String → String → Result SplitModel
unfolding checked_base_url partition contains
split_model_base_url provider model_part =
    if provider == "ollama"
    then split_ollama (partition 64 model_part)
    else if contains ("openai-compatible" ∷ "azure-foundry" ∷ []) provider
    then split_api provider model_part (partition 64 model_part)
    else ok (model_part, none)

unfoldable pub provider_transport : String → String
unfolding contains
provider_transport provider =
    if contains ("codex" ∷ "antigravity" ∷ "composer" ∷ []) provider
    then "cli"
    else if provider == "ollama"
    then "http"
    else "api"

-- `dict(pairs)`
unfoldable pub dict_of : List (String × String) → Dict String → Dict String
unfolding insert
dict_of [] options = options
dict_of ((key, value) ∷ pairs) options = dict_of pairs (insert key value options)

-- `options or None`
abbrev or_none : Dict String → Option (Dict String)
or_none [] = none
or_none (option ∷ options) = some (option ∷ options)

abbrev bad_reasoning : Option String → Bool
bad_reasoning none = false
bad_reasoning (some reasoning) =
    not (contains ("minimal" ∷ "low" ∷ "medium" ∷ "high" ∷ []) reasoning)

module _ (parse_qsl : String → List (String × String)) where
  -- The rest of `parse_model_ref`, from the parts of the text.
  unfoldable pub model_ref_of : String × Bool × String → String → Result ModelRef
  unfolding split_model_base_url dict_of contains lookup
  model_ref_of (provider, sep, model_part) query = do
    raise_if (not sep || provider == "" || model_part == "") (
        configuration ("Model ref must use provider:model syntax, for example openai:gpt-5.2" ∷ []))
    raise_if (not (contains known_providers provider))
        (configuration ("Unsupported model provider in ref: " ∷ provider ∷ []))
    split ← split_model_base_url provider model_part
    let options = if query == "" then [] else dict_of (parse_qsl query) []
    raise_if (bad_reasoning (lookup "reasoning" options))
        (configuration ("Unsupported reasoning effort: " ∷ []))
    ok (record {
      provider = provider;
      model = split.0;
      base_url = split.1;
      options = or_none options;
    })

  unfoldable pub parse_model_ref : String → Result ModelRef
  unfolding model_ref_of strip partition
  parse_model_ref value = do
    let text = strip value
    raise_if (text == "") (configuration ("Model ref cannot be empty" ∷ []))
    let parts = partition 63 text
    model_ref_of (partition 58 parts.0) parts.2
