-- ===== src/Engine/Prompt.antt =====
-- engine/controller.py, `_write_prompt`, with runtime/skills.py and `resolve_context_refs` of
-- runtime/context.py: the text that tells a worker its task.
use Prim.Native.Char.{char}
use railwarden.Base.{
  ℕ, zero, suc, String, ◌<>◌, ◌==◌, Bool, true, false, ◌&&◌, Option, none, some, List, [], ◌∷◌,
  ◌++◌, map, ok, lookup, insert, keys, sorted, if◌then◌else◌,
}
use railwarden.Base.Exec.{Exec, pure, gets, modify, ◌>>=◌, ◌>>◌}
use railwarden.Text.{rstrip, strip, shorten, ends_with, parent, stem}
use railwarden.Config.{FilePath, ProjectConfig, WorkPackage, ValidationCommand}
use railwarden.Value.{num, Fields}
use railwarden.Runtime.{Runtime}
use railwarden.World.{World, path_exists, under}
use railwarden.Engine.{required_text}
use railwarden.Engine.Outside.{Outside, Sys, in_runtime}
use railwarden.Engine.Handoff.{text_at_path, join_lines, attempt_of}

pub record Skill : Type 0 where
  pub name : String
  pub path : FilePath
  pub text : String
  pub runtime_only : Bool

-- `directory.glob("*.md")`
unfoldable pub markdown_among : FilePath → List FilePath → List FilePath
unfolding parent ends_with
markdown_among directory [] = []
markdown_among directory (path ∷ paths) =
    let rest = markdown_among directory paths in
    if parent path == directory && ends_with path ".md" then path ∷ rest else rest

abbrev skill_at : Bool → Runtime → FilePath → Skill
skill_at runtime_only rt path = record {
  name = stem path;
  path = path;
  text = text_at_path path rt;
  runtime_only = runtime_only;
}

abbrev skills_in : Runtime → FilePath → Bool → List Skill
skills_in rt directory runtime_only =
    map (skill_at runtime_only rt) (sorted (markdown_among directory (keys rt.text_files)))

-- `len(text) > n`
unfoldable pub longer_than : ℕ → String → Bool
longer_than n String.[] = false
longer_than zero (String.◌∷◌ c s) = true
longer_than (suc n) (String.◌∷◌ c s) = longer_than n s

abbrev newline : String
newline = String.◌∷◌ (char 10 tt) String.[]

-- `"\n\n".join(texts)`
unfoldable pub join_blocks : List String → String
join_blocks [] = ""
join_blocks (text ∷ []) = text
join_blocks (text ∷ next ∷ more) = text <> newline <> newline <> join_blocks (next ∷ more)

-- The chunk of one context reference, from the stripped text of its file.
abbrev chunk_of : String → String → List String
chunk_of ref text =
    if text == ""
    then []
    else ("### "
        <> ref
        <> newline
        <> newline
        <> (if longer_than 8000 text
            then shorten 8000 text <> newline <> "...[truncated]..."
            else text))
      ∷ []

unfoldable pub context_chunks : FilePath → Runtime → List String → List String
unfolding text_at_path strip longer_than shorten
context_chunks root rt [] = []
context_chunks root rt (ref ∷ refs) =
    chunk_of ref (strip (text_at_path (under root ref) rt)) ++ context_chunks root rt refs

unfoldable pub resolve_context_refs : FilePath → Runtime → List String → String
unfolding context_chunks join_blocks
resolve_context_refs root rt refs = join_blocks (context_chunks root rt refs)

abbrev or_text : String → String → String
or_text text default = if text == "" then default else text

abbrev bullet : String → String
bullet item = "- " <> item

abbrev bullets : List String → String
bullets items = or_text (join_lines (map bullet items)) "- none"

-- `" ".join(words)`
unfoldable pub join_words : List String → String
join_words [] = ""
join_words (word ∷ []) = word
join_words (word ∷ next ∷ more) = word <> " " <> join_words (next ∷ more)

abbrev command_line : ValidationCommand → String
command_line command = command.name <> ": " <> join_words command.argv

abbrev shown : Bool → String
shown true = "True"
shown false = "False"

abbrev skill_line : Skill → String
skill_line skill =
    skill.name
    <> ": "
    <> skill.path
    <> " ("
    <> (if skill.runtime_only then "runtime" else "project")
    <> ")"

abbrev skill_block : Skill → String
skill_block skill = "## Skill: " <> skill.name <> newline <> newline <> rstrip skill.text

-- The f-string, line by line.
unfoldable pub prompt_body :
    String → String → WorkPackage → FilePath → FilePath → String → List Skill → String
unfolding rstrip join_lines join_words join_blocks
prompt_body base task_id work_package workspace result_path context skills = join_lines (
    (rstrip base
      ∷ ""
      ∷ ("Task id: " <> task_id)
      ∷ ("Package id: " <> work_package.package_id)
      ∷ ("Name: " <> work_package.name)
      ∷ "Objective:"
      ∷ work_package.objective
      ∷ ""
      ∷ "Owned paths:"
      ∷ bullets work_package.owned_paths
      ∷ ""
      ∷ "Forbidden paths:"
      ∷ bullets work_package.forbidden_paths
      ∷ ""
      ∷ "Acceptance tests:"
      ∷ bullets work_package.acceptance_tests
      ∷ ""
      ∷ "Acceptance criteria:"
      ∷ bullets work_package.acceptance_criteria
      ∷ ""
      ∷ "Validation commands:"
      ∷ bullets (map command_line work_package.validation_commands)
      ∷ ""
      ∷ "Context refs:"
      ∷ bullets work_package.context_refs
      ∷ ""
      ∷ "Context content:"
      ∷ or_text context "No context content resolved."
      ∷ ""
      ∷ "Context rules:"
      ∷ "- Read every listed context ref before editing."
      ∷ "- Do not modify context/* unless this package explicitly owns those paths."
      ∷ ""
      ∷ "Risk / merge policy:"
      ∷ ("- risk_level: " <> work_package.risk_level)
      ∷ ("- merge_policy: " <> work_package.merge_policy)
      ∷ ("- review_required: " <> shown work_package.review_required)
      ∷ ("- approval_required: " <> shown work_package.approval_required)
      ∷ ""
      ∷ ("Workspace: " <> workspace)
      ∷ ("Expected result JSON path: " <> result_path)
      ∷ ""
      ∷ [])
    ++ ("Result JSON schema:"
        ∷ "{"
        ∷ "  \"schema_version\": \"1.0.0\","
        ∷ ("  \"task_id\": \"" <> task_id <> "\",")
        ∷ "  \"worker\": \"<agent id or provider>\","
        ∷ "  \"model\": \"<model identifier>\","
        ∷ "  \"status\": \"completed\","
        ∷ "  \"summary\": \"<brief implementation summary>\","
        ∷ ("  \"workspace\": \"" <> workspace <> "\",")
        ∷ "  \"branch\": \"<current branch>\","
        ∷ "  \"commit_hash\": \"<HEAD commit hash after committing owned changes>\","
        ∷ "  \"changed_files\": [\"<paths changed in the commit>\"],"
        ∷ "  \"tests\": ["
        ∷ "    {\"command\": \"<command>\", \"status\": \"passed\", \"summary\": \"<short result>\"}"
        ∷ "  ],"
        ∷ "  \"blockers\": [],"
        ∷ "  \"evidence\": []"
        ∷ "}"
        ∷ ""
        ∷ "Rules for worker result:"
        ∷ "- Write JSON exactly to the expected path above."
        ∷ "- Commit completed owned-path changes before writing a completed result."
        ∷ "- Do not commit the result JSON file."
        ∷ "- Use `status: \"blocked\"` with blockers if the task cannot be completed."
        ∷ "- `tests` must not contain `failed` or `not_run` entries for a completed task."
        ∷ ""
        ∷ "Available skills:"
        ∷ bullets (map skill_line skills)
        ∷ ""
        ∷ "RailWarden MCP routing:"
        ∷ "- Agents with native MCP support should use the generated RailWarden MCP config."
        ∷ "- Agents without native MCP support must ask Hermes/RailWarden to execute MCP operations."
        ∷ ""
        ∷ "Skill text:"
        ∷ or_text (join_blocks (map skill_block skills))
            "No project or runtime skills are currently defined."
        ∷ ""
        ∷ "Write the structured worker result JSON to the expected path before exiting."
        ∷ ""
        ∷ []))

-- The template of the repository, else that of the installed code, else a title.
abbrev template_of : Option String → Option String → String
template_of (some text) _ = text
template_of none (some text) = text
template_of none none = "# RailWarden Worker Task" <> newline

module _ (W : World) (O : Outside) (config : ProjectConfig) (installed : FilePath) where
  open W use {State}

  unfoldable pub project_config_directory : State → FilePath
  project_config_directory s =
      let preferred = under config.repository_root ".railwarden" in
      let legacy = under config.repository_root ".lfg" in
      if path_exists W s preferred
      then preferred
      else if path_exists W s legacy
      then legacy
      else preferred

  unfoldable pub load_skills : Sys W → List Skill
  unfolding markdown_among keys sorted text_at_path stem project_config_directory
  load_skills s =
      skills_in s.rt (under (project_config_directory s.repo) "skills") false
      ++ skills_in s.rt (under config.runtime_directory "skills") true

  unfoldable pub write_prompt : WorkPackage → Fields → FilePath → FilePath → Exec (Sys W) FilePath
  unfolding lookup insert attempt_of required_text prompt_body resolve_context_refs load_skills
      in_runtime
  write_prompt work_package task workspace result_path = do
    attempt ← gets (λ _. attempt_of W O config task)
    task_id ← gets (λ _. required_text O.show O.parse "id" task)
    base ← gets (λ s. ok (
        template_of
          (lookup (under config.repository_root "templates/worker_task_prompt.md") s.rt.text_files)
          (lookup installed s.rt.text_files)))
    context ←
        gets (λ s. ok (resolve_context_refs config.repository_root s.rt work_package.context_refs))
    skills ← gets (λ s. ok (load_skills s))
    let path =
        under config.runtime_directory
          ("prompts/" <> task_id <> "-" <> O.show (num attempt) <> ".md")
    in_runtime W (
        modify (λ rt. record rt {
          text_files =
              insert path
                (prompt_body base task_id work_package workspace result_path context skills)
                rt.text_files;
        }))
    pure path
