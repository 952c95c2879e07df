-- ===== src/World.antt =====
-- git.py, and the outside that the code works on: the git repositories and their directories, the
-- files in them, and the commands that validation runs. A `World` is a parameter of the model:
-- `query` is a git subcommand that only reads, `command` one that writes.
use railwarden.Base.{
  ℕ, String, ◌<>◌, ◌==◌, Bool, true, false, Option, List, [], ◌∷◌, Result, ok, err,
  git as git_error, nat_eq, if◌then◌else◌,
}
use railwarden.Base.Exec.{Exec}
use railwarden.Config.{FilePath}
use railwarden.Text.{strip, splitlines, nonempty}

-- `CommandResult`
pub record Reply : Type 0 where
  pub returncode : ℕ
  pub stdout : String
  pub stderr : String

pub data PathKind : Type 0 where
  file directory absent : PathKind

pub record World : Type 1 where
  pub State : Type 0
  pub query : State → FilePath → List String → Reply
  pub command : State → FilePath → List String → State × Reply
  -- `path.is_file() or path.is_symlink()`, `path.is_dir()`
  pub kind : State → FilePath → PathKind
  pub unlink : State → FilePath → State
  -- `path.rmdir()`; `none` is an OSError
  pub rmdir : State → FilePath → Option State
  -- `shutil.rmtree(path)`
  pub rmtree : State → FilePath → State
  -- `subprocess.run(argv, cwd=...)`: the return code with stdout and stderr, `none` on an OSError
  pub execute : State → FilePath → List String → State × Option Reply
  -- whether `repository / cwd`, resolved, lies in the repository
  pub inside : State → FilePath → FilePath → Bool

-- `repository / path`
abbrev pub under : FilePath → FilePath → FilePath
under root path = root <> "/" <> path

module _ (W : World) where
  open W use {State, query, command, kind}

  -- `run_git(..., check=True)` raises on a return code other than 0.
  unfoldable pub checked : List String → Reply → Result Reply
  checked arguments reply =
      if nat_eq reply.returncode 0
      then ok reply
      else err (git_error ("Git command failed: " ∷ arguments))

  unfoldable pub output : State → FilePath → List String → Result String
  unfolding checked strip
  output s repository arguments = elim (checked arguments (query s repository arguments)) [
    | ok reply ↦ ok (strip reply.stdout)
    | err e ↦ err e
  ]

  -- `run_git` for a subcommand that writes
  unfoldable pub run_git : FilePath → List String → Exec State Reply
  unfolding checked
  run_git repository arguments s =
      let (t, reply) = command s repository arguments in (checked arguments reply, t)

  -- with `check=False`
  unfoldable pub try_git : FilePath → List String → Exec State Reply
  try_git repository arguments s = let (t, reply) = command s repository arguments in (ok reply, t)

  unfoldable pub current_branch : State → FilePath → Result String
  unfolding output
  current_branch s repository = output s repository ("branch" ∷ "--show-current" ∷ [])

  unfoldable pub head : State → FilePath → String → Result String
  unfolding output
  head s repository revision = output s repository ("rev-parse" ∷ revision ∷ [])

  unfoldable pub is_clean : State → FilePath → Result Bool
  unfolding output
  is_clean s repository = elim (output s repository ("status" ∷ "--porcelain" ∷ [])) [
    | ok text ↦ ok (text == "")
    | err e ↦ err e
  ]

  unfoldable pub tracked_is_clean : State → FilePath → Result Bool
  unfolding output
  tracked_is_clean s repository =
      elim (output s repository ("status" ∷ "--porcelain" ∷ "--untracked-files=no" ∷ [])) [
        | ok text ↦ ok (text == "")
        | err e ↦ err e
      ]

  abbrev succeeds : State → FilePath → List String → Bool
  succeeds s repository arguments = nat_eq (query s repository arguments).returncode 0

  unfoldable pub worktree_is_usable : State → FilePath → Bool
  worktree_is_usable s repository = succeeds s repository ("rev-parse" ∷ "--git-dir" ∷ [])

  unfoldable pub branch_exists : State → FilePath → String → Bool
  branch_exists s repository branch =
      succeeds s repository ("show-ref" ∷ "--verify" ∷ "--quiet" ∷ ("refs/heads/" <> branch) ∷ [])

  unfoldable pub branch_is_ancestor : State → FilePath → String → String → Bool
  branch_is_ancestor s repository ancestor descendant =
      succeeds s repository ("merge-base" ∷ "--is-ancestor" ∷ ancestor ∷ descendant ∷ [])

  abbrev lines : State → FilePath → List String → Result (List String)
  lines s repository arguments = elim (output s repository arguments) [
    | ok text ↦ ok (nonempty (splitlines text))
    | err e ↦ err e
  ]

  unfoldable pub changed_files_in_commit : State → FilePath → String → Result (List String)
  unfolding output splitlines nonempty
  changed_files_in_commit s repository commit =
      lines s repository ("diff-tree" ∷ "--no-commit-id" ∷ "--name-only" ∷ "-r" ∷ commit ∷ [])

  unfoldable pub untracked_files : State → FilePath → Result (List String)
  unfolding output splitlines nonempty
  untracked_files s repository =
      lines s repository ("ls-files" ∷ "--others" ∷ "--exclude-standard" ∷ [])

  abbrev pub is_dir : State → FilePath → Bool
  is_dir s path = elim (kind s path) [ directory ↦ true | _ ↦ false ]

  abbrev pub path_exists : State → FilePath → Bool
  path_exists s path = elim (kind s path) [ absent ↦ false | _ ↦ true ]
