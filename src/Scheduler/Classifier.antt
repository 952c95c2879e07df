-- ===== src/Scheduler/Classifier.antt =====
-- scheduler/classifier.py: the state of each package, from the git branches, the worktrees and the
-- task ledger, and the plan of the next assignments.
pub mod Ladder
pub mod Plan
use railwarden.Base.{
  ℕ, zero, suc, String, ◌<>◌, ◌==◌, starts_with, Bool, true, false, not, ◌&&◌, ◌||◌, Option, none,
  some, List, [], ◌∷◌, map, Result, ok, err, Error, ◌>>=◌, Dict, lookup, contains, sorted_by,
  text_le, nat_eq, if◌then◌else◌,
}
use railwarden.Text.{strip, lower, without, slug}
use railwarden.Config.{FilePath, WorkPackage, ProjectConfig}
use railwarden.World.{
  World, is_dir, output, head, branch_exists, branch_is_ancestor, worktree_is_usable,
  tracked_is_clean, under,
}
use railwarden.Value.{Fields, Show, get_or, null, truthy, to_str}
use railwarden.Runtime.{Runtime}
use railwarden.Tasks.{task_for_package, active_task_states}
use railwarden.Scheduler.Dag.{validate_dag}

pub record PackageState : Type 0 where
  pub package_id : String
  pub name : String
  pub state : String
  pub dependencies : List String
  pub unmet_dependencies : List String
  pub branch : String
  pub worktree : FilePath
  pub head : Option String
  pub task_id : Option String
  pub task_status : Option String
  pub dirty : Bool

-- `package.branch or f"railwarden/{package.package_id}"`
abbrev or_text : Option String → String → String
or_text none default = default
or_text (some s) default = if s == "" then default else s

unfoldable pub package_branch : WorkPackage → String
package_branch work_package = or_text work_package.branch ("railwarden/" <> work_package.package_id)

-- tmux/session.py
unfoldable pub normalized_project_name : String → String
unfolding slug
normalized_project_name name = or_text (some (slug name)) "project"

unfoldable pub package_worktree : ProjectConfig → WorkPackage → FilePath
unfolding normalized_project_name lower without
package_worktree config work_package = elim work_package.worktree [
  | some path ↦ if starts_with path "/" then path else under config.worktree_root path
  | none ↦
      under (under config.worktree_root (normalized_project_name config.name))
        (without 45 (lower work_package.package_id))
]

-- What the code looks up for a package.
pub record Facts : Type 0 where
  pub dirty : Bool
  pub merged : Bool
  pub task_status : Option String
  pub has_commits : Bool
  pub unmet : List String

abbrev pub is_active : Option String → Bool
is_active none = false
is_active (some status) = contains active_task_states status

abbrev pub is_nonempty : List String → Bool
is_nonempty [] = false
is_nonempty (_ ∷ _) = true

-- The chain of `if`s that gives the state.
unfoldable pub ladder : Bool → Bool → Bool → Bool → Bool → String
ladder dirty merged active has_commits unmet =
    if dirty
    then "repair_required"
    else if merged
    then "merged"
    else if active
    then "active"
    else if has_commits && unmet
    then "integration_blocked"
    else if has_commits
    then "integration_ready"
    else if not unmet
    then "execution_ready"
    else "waiting"

unfoldable pub state_of : Facts → String
unfolding contains ladder
state_of facts =
    ladder facts.dirty facts.merged (is_active facts.task_status) facts.has_commits
      (is_nonempty facts.unmet)

-- `tuple(d for d in dependencies if d not in merged_ids)`
unfoldable pub unmet_of : List String → List String → List String
unfolding contains
unmet_of merged_ids [] = []
unmet_of merged_ids (d ∷ ds) =
    let rest = unmet_of merged_ids ds in if contains merged_ids d then rest else d ∷ rest

-- `str(task[key]) if task and task.get(key) else None`
abbrev pub task_text : Show → String → Option Fields → Option String
task_text show key none = none
task_text show key (some task) =
    let v = get_or key null task in if truthy v then some (to_str show v) else none

module _ (W : World) (show : Show) (config : ProjectConfig) (overrides : Dict String) where
  open W use {State}

  abbrev pub repo : FilePath
  repo = config.repository_root

  -- `overrides.get(package_id, package_branch(package))`
  unfoldable pub branch_of : String → WorkPackage → String
  unfolding lookup package_branch
  branch_of package_id work_package = elim (lookup package_id overrides) [
    | some branch ↦ branch
    | none ↦ package_branch work_package
  ]

  -- The condition of `merged_ids`.
  unfoldable pub is_merged : State → String → WorkPackage → Result Bool
  unfolding branch_of branch_exists branch_is_ancestor
  is_merged s package_id work_package =
      let branch = branch_of package_id work_package in
      if branch_exists W s repo branch
        && branch_is_ancestor W s repo branch config.integration_branch
      then (head W s repo branch >>= λ tip.
          head W s repo config.integration_branch >>= λ base. ok (not (tip == base)))
      else ok false

  unfoldable pub merged_ids_of : State → Dict WorkPackage → Result (List String)
  unfolding is_merged
  merged_ids_of s [] = ok []
  merged_ids_of s ((package_id, work_package) ∷ packages) = do
    merged ← is_merged s package_id work_package
    rest ← merged_ids_of s packages
    ok (if merged then package_id ∷ rest else rest)

  -- `except Exception: return False`
  abbrev or_false : Result Bool → Bool
  or_false (ok b) = b
  or_false (err _) = false

  abbrev or_else : Result Bool → Bool → Bool
  or_else (ok b) _ = b
  or_else (err _) b = b

  -- The output of `git log --oneline base..branch` is not empty.
  abbrev log_is_nonempty : State → String → String → Result Bool
  log_is_nonempty s base branch =
      output W s repo ("log" ∷ "--oneline" ∷ (base <> ".." <> branch) ∷ []) >>= λ res.
      ok (not (strip res == ""))

  unfoldable pub branch_has_new_commits : State → String → String → Bool
  unfolding branch_exists output strip
  branch_has_new_commits s branch base_branch =
      if branch_exists W s repo branch
      then or_else (log_is_nonempty s base_branch branch) (
          or_false (
            output W s repo ("merge-base" ∷ branch ∷ base_branch ∷ []) >>= λ b_base.
            log_is_nonempty s b_base branch))
      else false

  -- `worktree.is_dir() and worktree_is_usable(worktree) and not tracked_is_clean(worktree)`
  unfoldable pub is_dirty : State → FilePath → Result Bool
  unfolding worktree_is_usable tracked_is_clean
  is_dirty s worktree =
      if is_dir W s worktree && worktree_is_usable W s worktree
      then (tracked_is_clean W s worktree >>= λ clean. ok (not clean))
      else ok false

  abbrev pub head_if : State → String → Result (Option String)
  head_if s branch =
      if branch_exists W s repo branch
      then (head W s repo branch >>= λ tip. ok (some tip))
      else ok none

  abbrev pub has_head : Option String → Bool
  has_head none = false
  has_head (some _) = true

  -- The state of a package, from what was looked up.
  abbrev pub state_from :
      List String
      → String
      → WorkPackage
      → Option String
      → Bool
      → Bool
      → Option Fields
      → PackageState
  state_from merged_ids package_id work_package branch_head dirty has_commits task = record {
    package_id = package_id;
    name = work_package.name;
    state = state_of (record {
      dirty = dirty;
      merged = contains merged_ids package_id;
      task_status = task_text show "status" task;
      has_commits = has_commits;
      unmet = unmet_of merged_ids work_package.dependencies;
    });
    dependencies = work_package.dependencies;
    unmet_dependencies = unmet_of merged_ids work_package.dependencies;
    branch = branch_of package_id work_package;
    worktree = package_worktree config work_package;
    head = branch_head;
    task_id = task_text show "id" task;
    task_status = task_text show "status" task;
    dirty = dirty;
  }

  -- One round of the loop of `classify_packages`.
  unfoldable pub classify_package :
      State → Runtime → List String → String × WorkPackage → Result PackageState
  unfolding branch_of package_worktree is_dirty branch_has_new_commits task_for_package unmet_of
      state_of
  classify_package s rt merged_ids (package_id, work_package) = do
    let branch = branch_of package_id work_package
    branch_head ← head_if s branch
    dirty ← is_dirty s (package_worktree config work_package)
    task ← task_for_package show package_id rt
    let has_commits =
        has_head branch_head && branch_has_new_commits s branch config.integration_branch
    ok (state_from merged_ids package_id work_package branch_head dirty has_commits task)

  unfoldable pub classify_each :
      State → Runtime → List String → Dict WorkPackage → Result (List PackageState)
  unfolding classify_package
  classify_each s rt merged_ids [] = ok []
  classify_each s rt merged_ids (entry ∷ entries) = do
    state ← classify_package s rt merged_ids entry
    states ← classify_each s rt merged_ids entries
    ok (state ∷ states)

  -- The order of `sorted(packages.items())`, by the key.
  abbrev pub key_le : String × WorkPackage → String × WorkPackage → Bool
  key_le (a, _) (b, _) = text_le a b

  unfoldable pub classify_packages : State → Runtime → Dict WorkPackage → Result (List PackageState)
  unfolding merged_ids_of classify_each sorted_by
  classify_packages s rt packages = do
    _ ← validate_dag packages
    merged_ids ← merged_ids_of s packages
    classify_each s rt merged_ids (sorted_by key_le packages)
