-- ===== src/Worktrees.antt =====
-- provisioning/worktrees.py: the git worktree that a task works in. A path is compared with the
-- registered ones as `resolve` gives it, which is a parameter.
pub mod Reuse
use Prim.Native.Char.{code}
use railwarden.Base.{
  String, ◌<>◌, ◌==◌, Bool, true, false, not, ◌&&◌, ◌||◌, Option, none, some, List, [], ◌∷◌, Result,
  ok, err, git, nat_eq, lookup, insert, Dict, if◌then◌else◌,
}
use railwarden.Base.Exec.{Exec, pure, throw, gets, refuse, ◌>>=◌, ◌>>◌}
use railwarden.Config.{FilePath}
use railwarden.Text.{splitlines}
use railwarden.World.{
  World, run_git, try_git, output, current_branch, tracked_is_clean, worktree_is_usable,
  branch_exists, path_exists, under,
}

pub record Ensured : Type 0 where
  pub operation : String
  pub workspace : FilePath
  pub branch : String
  pub dirty : Bool

-- The text before the first space, and the text after it.
unfoldable pub partition_space : String → String × String
partition_space String.[] = ("", "")
partition_space (String.◌∷◌ c s) =
    let (key, value) = partition_space s in
    if nat_eq (code c) 32 then ("", s) else (String.◌∷◌ c key, value)

abbrev flush : Dict String → List (Dict String) → List (Dict String)
flush [] entries = entries
flush current entries = current ∷ entries

-- The loop of `worktree_entries` in git.py.
unfoldable pub entries_from : Dict String → List String → List (Dict String)
unfolding partition_space insert
entries_from current [] = flush current []
entries_from current (line ∷ lines) =
    let (key, value) = partition_space line in
    let ended = flush current (entries_from [] lines) in
    let more = entries_from (insert key value current) lines in if line == "" then ended else more

module _ (W : World) (resolve : FilePath → FilePath) (repository : FilePath) where
  open W use {State, rmtree}

  unfoldable pub worktree_entries : State → Result (List (Dict String))
  unfolding output splitlines entries_from
  worktree_entries s = elim (output W s repository ("worktree" ∷ "list" ∷ "--porcelain" ∷ [])) [
    | ok text ↦ ok (entries_from [] (splitlines text))
    | err e ↦ err e
  ]

  abbrev entry_path : Dict String → FilePath
  entry_path entry = elim (lookup "worktree" entry) [ none ↦ "" | some path ↦ path ]

  unfoldable pub any_entry : FilePath → List (Dict String) → Bool
  unfolding lookup
  any_entry target [] = false
  any_entry target (entry ∷ entries) =
      resolve (entry_path entry) == target || any_entry target entries

  unfoldable pub is_registered_worktree : State → FilePath → Result Bool
  unfolding worktree_entries any_entry
  is_registered_worktree s workspace = elim (worktree_entries s) [
    | ok entries ↦ ok (any_entry (resolve workspace) entries)
    | err e ↦ err e
  ]

  -- `shutil.rmtree(path)`
  abbrev remove_tree : FilePath → Exec State (Unit {0})
  remove_tree path s = (ok tt, rmtree s path)

  unfoldable pub remove_workspace : FilePath → Exec State (Unit {0})
  unfolding try_git
  remove_workspace workspace = do
    try_git W repository ("worktree" ∷ "prune" ∷ [])
    remove_tree workspace

  -- What stands at the path but is not registered.
  unfoldable pub clear_unregistered : FilePath → Exec State (Unit {0})
  unfolding remove_workspace worktree_is_usable
  clear_unregistered workspace s =
      (if path_exists W s (under workspace ".git")
          then if worktree_is_usable W s workspace
            then throw (git ("Refusing to use unregistered path as a worktree: " ∷ workspace ∷ []))
            else remove_workspace workspace
          else remove_tree workspace)
        s

  -- A registered worktree is used again.
  unfoldable pub reuse : FilePath → String → String → Exec State Ensured
  unfolding current_branch tracked_is_clean
  reuse workspace branch action = do
    actual_branch ← gets (λ s. current_branch W s workspace)
    refuse (not (actual_branch == branch))
        (git ("Worktree " ∷ workspace ∷ " is on " ∷ actual_branch ∷ ", expected " ∷ branch ∷ []))
    clean ← gets (λ s. tracked_is_clean W s workspace)
    refuse (not clean && not (action == "repair"))
        (git ("Execution worktree is dirty and cannot be reused safely: " ∷ workspace ∷ []))
    pure (record { operation = "reuse"; workspace = workspace; branch = branch; dirty = not clean })

  abbrev pub add_command : String → FilePath → String → Bool → List String
  add_command integration_branch workspace branch true =
      "worktree" ∷ "add" ∷ workspace ∷ branch ∷ []
  add_command integration_branch workspace branch false =
      "worktree" ∷ "add" ∷ "-b" ∷ branch ∷ workspace ∷ integration_branch ∷ []

  -- `if not dry_run: run_git(repository, *command)`
  unfoldable pub add_unless : Bool → List String → Exec State (Unit {0})
  unfolding run_git
  add_unless true command = pure tt
  add_unless false command = run_git W repository command >>= λ _. pure tt

  -- A new worktree.
  unfoldable pub create : String → FilePath → String → String → Bool → Exec State Ensured
  unfolding branch_exists add_unless
  create integration_branch workspace branch action dry_run = do
    refuse (action == "repair")
        (git ("Repair worktree does not exist or is not registered: " ∷ workspace ∷ []))
    exists ← gets (λ s. ok (branch_exists W s repository branch))
    add_unless dry_run (add_command integration_branch workspace branch exists)
    pure (record { operation = "create"; workspace = workspace; branch = branch; dirty = false })

  -- The rest of `ensure_worktree`, from whether the workspace exists and is registered.
  unfoldable pub ensure_from :
      String → FilePath → String → String → Bool → Bool → Bool → Exec State Ensured
  unfolding clear_unregistered reuse create
  ensure_from integration_branch workspace branch action dry_run exists true =
      reuse workspace branch action
  ensure_from integration_branch workspace branch action dry_run true false =
      clear_unregistered workspace >> create integration_branch workspace branch action dry_run
  ensure_from integration_branch workspace branch action dry_run false false =
      create integration_branch workspace branch action dry_run

  abbrev pub registered_if : Bool → State → FilePath → Result Bool
  registered_if true s workspace = is_registered_worktree s workspace
  registered_if false s workspace = ok false

  unfoldable pub ensure_worktree : String → FilePath → String → String → Bool → Exec State Ensured
  unfolding is_registered_worktree ensure_from
  ensure_worktree integration_branch workspace branch action dry_run = do
    exists ← gets (λ s. ok (path_exists W s workspace))
    registered ← gets (λ s. registered_if exists s workspace)
    ensure_from integration_branch workspace branch action dry_run exists registered
