-- ===== src/Engine/Checkpoint/Staged.antt =====
-- Where a checkpoint may be committed, and what it leaves out.
use railwarden.Base.{
  ℕ, String, true, Bool-cases, All, contains_head, contains_tail, ◌⊎◌, if◌then◌else◌, ◌==◌, eq_refl,
  eq_iff, text_cases, false, not, ◌&&◌, List, [], ◌∷◌, Result, Error, ok, err, git, contains, ◌≡◌,
  refl, sym, ap, subst, ◌∙◌, ◌≢◌, inl, inr, arith,
}
use railwarden.Base.Exec.{gets, pure, run-eq-ok, pure-eq-ok, refuse-eq-ok, gets-eq-ok, refuse}
use railwarden.Config.{FilePath, ProjectConfig}
use railwarden.Scheduler.Classifier.{is_nonempty}
use railwarden.World.{World, Reply, run_git, current_branch}
use railwarden.Engine.Outside.{Outside, Sys, in_runtime, in_repository, asks}
use railwarden.Engine.Checkpoint.{
  CheckpointResult, is_allowed, disallowed_among, staged_files, restore_staged, unstage_disallowed,
  stage, commit_staged, record_checkpoint, create_checkpoint_commit,
}

-- What is unstaged: exactly the staged files that no owned path covers.
contains-disallowed_among :
    (allowed_paths items : List String) (item : String)
    → contains (disallowed_among allowed_paths items) item
      ≡ (contains items item && not (is_allowed item allowed_paths))
unfolding disallowed_among contains
contains-disallowed_among allowed_paths [] item = refl
contains-disallowed_among allowed_paths (x ∷ items) item = elim (text_cases item x) [
  | inl same ↦ rw same (ground (arith, contains-disallowed_among allowed_paths items x, eq_refl x))
  | inr differ ↦ ground (arith, contains-disallowed_among allowed_paths items item, differ)
]

-- What holds of every member.
every :
    {P : String → Type 0} (xs : List String)
    → ((item : String) → contains xs item ≡ true → P item)
    → All P xs
every [] f = tt
every (x ∷ xs) f =
    (f x (contains_head x xs), every xs λ item there. f item (contains_tail item x xs there))

module _ (W : World) (O : Outside) (config : ProjectConfig) where
  open W use {State}

  -- The checkpoint that is recorded is the one that is returned.
  record_checkpoint_lem :
      (given checkpoint : CheckpointResult) (s t : Sys W)
      → record_checkpoint W O config given s ≡ (ok checkpoint, t)
      → given ≡ checkpoint
  unfolding record_checkpoint in_runtime
  record_checkpoint_lem given checkpoint s t e = (pure-eq-ok given checkpoint _ t e).0

  -- The index after `git add`, of which a checkpoint keeps no file that the package does not own.
  abbrev pub OnlyOwned : FilePath → List String → State → List String → Type 0
  OnlyOwned workspace allowed_paths s files =
      (staged : List String) × (staged_files W O config
          (run_git W workspace ("add" ∷ "-A" ∷ "--" ∷ "." ∷ []) s).1 workspace
        ≡ ok staged)
      × All (λ item. (is_allowed item allowed_paths ≡ true) ⊎ (contains files item ≡ false)) staged

  -- The branch of a checkpoint is checked out, it is named, and it is not the integration branch;
  -- and no staged file that the package does not own is among the files.
  abbrev pub OnTaskBranch : FilePath → List String → Sys W → CheckpointResult → Type 0
  OnTaskBranch workspace allowed_paths s checkpoint =
      (current_branch W s.repo workspace ≡ ok checkpoint.branch)
      × (checkpoint.branch ≢ config.integration_branch)
      × (checkpoint.branch ≢ "")
      × OnlyOwned workspace allowed_paths s.repo checkpoint.files

  abbrev pub Refused : FilePath → Sys W → Error → Sys W → Type 0
  Refused workspace s e t =
      (current_branch W s.repo workspace ≢ ok config.integration_branch)
      ⊎ ((e ≡ git ("Checkpoint commits are forbidden on the integration branch" ∷ [])) × (t ≡ s))

  abbrev pub Checked : FilePath → List String → Sys W → Result CheckpointResult → Sys W → Type 0
  Checked workspace allowed_paths s (ok checkpoint) t =
      OnTaskBranch workspace allowed_paths s checkpoint
  Checked workspace allowed_paths s (err e) t = Refused workspace s e t

  other_branch : (a b : String) → (a == b) ≡ false → a ≢ b
  other_branch a b differs same = ground (arith, eq_iff a b)

  module _ (workspace : FilePath)
      (restored : (s t : State) (reply : Reply) (items after : List String) (item : String)
        → run_git W workspace ("restore" ∷ "--staged" ∷ "--" ∷ items) s ≡ (ok reply, t)
        → staged_files W O config t workspace ≡ ok after
        → contains items item ≡ true
        → contains after item ≡ false) where
    restore_staged_lem :
        (items after : List String) (s t : State) (u : Unit {0}) (item : String)
        → restore_staged W O config workspace items s ≡ (ok u, t)
        → staged_files W O config t workspace ≡ ok after
        → contains items item ≡ true
        → contains after item ≡ false
    unfolding restore_staged contains
    restore_staged_lem [] after s t u item e listed there = cc
    restore_staged_lem (x ∷ xs) after s t u item e listed there =
        let (reply, v, ran, done) =
          run-eq-ok (run_git W workspace ("restore" ∷ "--staged" ∷ "--" ∷ x ∷ xs)) _ s t u e in
        let (_, same) = pure-eq-ok tt u v t done in
        restored s v reply (x ∷ xs) after item ran
          (subst (λ w. staged_files W O config w workspace ≡ ok after) (sym same) listed) there

    unstaged-Owned :
        (allowed_paths files : List String) (s t : State) (u : Unit {0})
        → unstage_disallowed W O config workspace allowed_paths s ≡ (ok u, t)
        → staged_files W O config t workspace ≡ ok files
        → (staged : List String) × (staged_files W O config s workspace ≡ ok staged)
          × All
              (λ item. (is_allowed item allowed_paths ≡ true) ⊎ (contains files item ≡ false))
              staged
    unfolding unstage_disallowed
    unstaged-Owned allowed_paths files s t u e listed =
        let (staged, v, asked, e1) =
          run-eq-ok (gets (λ w. staged_files W O config w workspace)) _ s t u e in
        let (found, same) =
          gets-eq-ok (λ w. staged_files W O config w workspace) s v staged asked in
        (
          staged,
          found,
          every staged λ item there. elim (Bool-cases (is_allowed item allowed_paths)) [
            | inl owned ↦ inl owned
            | inr foreign ↦ inr (
                restore_staged_lem (disallowed_among allowed_paths staged) files v t u item e1
                  listed
                  (contains-disallowed_among allowed_paths staged item ∙ rw (there, foreign) refl))
          ],
        )

    stage-Owned :
        (allowed_paths files : List String) (s t : State)
        → is_nonempty allowed_paths ≡ true
        → stage W O config workspace allowed_paths s ≡ (ok files, t)
        → OnlyOwned workspace allowed_paths s files
    unfolding stage
    stage-Owned allowed_paths files s t some_paths e =
        let (reply, u, added, e1) =
          run-eq-ok (run_git W workspace ("add" ∷ "-A" ∷ "--" ∷ "." ∷ [])) _ s t files e in
        let (_, v, cleared, e2) =
          run-eq-ok
            (if is_nonempty allowed_paths
              then unstage_disallowed W O config workspace allowed_paths
              else pure tt)
            _ u t files e1 in
        let (listed, _) = gets-eq-ok (λ w. staged_files W O config w workspace) v t files e2 in
        let (staged, found, all) =
          unstaged-Owned allowed_paths files u v tt (rw some_paths at cleared) listed in
        let same : u ≡ (run_git W workspace ("add" ∷ "-A" ∷ "--" ∷ "." ∷ []) s).1 = cc (added) in
        (staged, subst (λ w. staged_files W O config w workspace ≡ ok staged) same found, all)

    create_checkpoint_commit_lem :
        (task_id : String) (attempt : ℕ) (allowed_paths : List String) (s t : Sys W)
        (checkpoint : CheckpointResult)
        → is_nonempty allowed_paths ≡ true
        → create_checkpoint_commit W O config task_id workspace attempt allowed_paths s
          ≡ (ok checkpoint, t)
        → OnTaskBranch workspace allowed_paths s checkpoint
    unfolding create_checkpoint_commit in_repository
    create_checkpoint_commit_lem task_id attempt allowed_paths s t checkpoint some_paths e =
        let (branch, s1, asked, e1) =
          run-eq-ok (asks W (λ r. current_branch W r workspace)) _ s t checkpoint e in
        let (checked_out, at0) =
          gets-eq-ok (λ v. current_branch W v.repo workspace) s s1 branch asked in
        let (_, s2, other, e2) =
          run-eq-ok (refuse (branch == config.integration_branch) _) _ s1 t checkpoint e1 in
        let (_, s3, named, e3) = run-eq-ok (refuse (branch == "") _) _ s2 t checkpoint e2 in
        let (staged, s4, filled, e4) =
          run-eq-ok (in_repository W (stage W O config workspace allowed_paths)) _ s3 t checkpoint
            e3 in
        let (_, s5, _, e5) =
          run-eq-ok (in_repository W (commit_staged W O config workspace _ staged)) _ s4 t
            checkpoint e4 in
        let (differs, at1) = refuse-eq-ok (branch == config.integration_branch) _ s1 s2 _ other in
        let (given, at2) = refuse-eq-ok (branch == "") _ s2 s3 _ named in
        let (r, v) = stage W O config workspace allowed_paths s3.repo in
        let returned : r ≡ ok staged = cc (filled) in
        subst (OnTaskBranch workspace allowed_paths s) (record_checkpoint_lem _ checkpoint s5 t e5)
          (
            checked_out,
            other_branch branch config.integration_branch differs,
            other_branch branch "" given,
            subst (λ w. OnlyOwned workspace allowed_paths w.repo staged) (sym (at0 ∙ (at1 ∙ at2)))
                (stage-Owned allowed_paths staged s3.repo v some_paths (ap (λ q. (q, v)) returned)),
          )

    -- On the integration branch the checkpoint is refused, and nothing is changed.
    refused_lem :
        (task_id : String) (attempt : ℕ) (allowed_paths : List String) (s t : Sys W) (e : Error)
        (checked_out : Result String)
        → current_branch W s.repo workspace ≡ checked_out
        → create_checkpoint_commit W O config task_id workspace attempt allowed_paths s ≡ (err e, t)
        → Refused workspace s e t
    unfolding create_checkpoint_commit
    refused_lem task_id attempt allowed_paths s t e (err raised) at h = inl λ on. cc
    refused_lem task_id attempt allowed_paths s t e (ok branch) at h =
        elim (Bool-cases (branch == config.integration_branch)) [
          | inl same ↦ let h' = rw (at, same) at h in inr (cc, cc)
          | inr differ ↦ inl λ on.
              let equal : branch ≡ config.integration_branch = cc (on, at) in
              absurd (ground (arith, (eq_iff branch config.integration_branch).1 equal))
        ]

    -- If no path is staged any more that `git restore --staged` restored: a checkpoint that is made
    -- for a package with owned paths is on the branch that is checked out in the workspace, a named
    -- branch other than the integration branch, and of the files in the index after `git add`
    -- those that no owned path covers are not among its files; and if an exception is raised, the
    -- workspace is not on the integration branch, or the exception is the refusal to commit there
    -- and nothing is changed.
    pub create_checkpoint_commit-Checked :
        (task_id : String) (attempt : ℕ) (allowed_paths : List String) (s t : Sys W)
        (result : Result CheckpointResult)
        → is_nonempty allowed_paths ≡ true
        → create_checkpoint_commit W O config task_id workspace attempt allowed_paths s
          ≡ (result, t)
        → Checked workspace allowed_paths s result t
    create_checkpoint_commit-Checked task_id attempt allowed_paths s t (ok checkpoint) some_paths
          h =
        create_checkpoint_commit_lem task_id attempt allowed_paths s t checkpoint some_paths h
    create_checkpoint_commit-Checked task_id attempt allowed_paths s t (err e) some_paths h =
        refused_lem task_id attempt allowed_paths s t e (current_branch W s.repo workspace) refl h
