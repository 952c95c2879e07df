-- ===== src/Integration/Merge.antt =====
-- What a payload of `integrate_one` says.
use railwarden.Base.{
  String, ◌==◌, starts_with, Bool, true, false, not, ◌&&◌, List, [], ◌∷◌, Result, ok, err,
  railwarden as general, configuration, git, validation, provider, value_error, runtime_error,
  key_error, os_error, type_error, recursion, ◌≡◌, refl, sym, ap, ◌∙◌, subst, inl, inr, eq_iff,
  true_ne_false, if◌then◌else◌,
}
use railwarden.Base.Exec.{pure, gets, refuse, ◌>>=◌, run-eq-ok}
use railwarden.Config.{ProjectConfig, ValidationCommand}
use railwarden.World.{
  World, head, current_branch, tracked_is_clean, branch_exists, branch_is_ancestor, untracked_files,
  run_git,
}
use railwarden.Validation.Runner.{ValidationResult, run_validation_suite, cleanup_new_untracked}
use railwarden.Validation.Runner.Suite.{Ran, run_validation_suite-Ran, failed_ne_passed}
use railwarden.Integration.{
  Candidate, Planned, Merged, Payload, planned, merged_and_validated, fast_forwarded, repository,
  roll_back, judged, caught, validate_or_roll_back, merged_or_abort, merge_and_validate, follow,
  sync_back, carry_out, attempt, switch_back, returned, switch_to, try_attempt, integrate_one,
}

-- The results are those of the commands, and no required one failed.
abbrev pub Validated : Bool → List ValidationCommand → Payload → Type 0
Validated execute commands (planned _) = execute ≡ false
Validated execute commands (merged_and_validated done) =
    (execute ≡ true) × Ran commands done.validation false
Validated execute commands (fast_forwarded done _ _) =
    (execute ≡ true) × Ran commands done.validation false

module _ (W : World) (config : ProjectConfig) where
  open W use {State}

  roll_back-No-return :
      (candidate : Candidate) (before_head : String) (before_untracked reason : List String)
      (s t : State) {A : Type 0} (a : A)
      → (roll_back W config candidate before_head before_untracked reason s ≡ (ok a, t))
      → true ≡ false
  unfolding roll_back
  roll_back-No-return candidate before_head before_untracked reason s t a e =
      let (u, _) = W.command s (repository W config) ("reset" ∷ "--hard" ∷ before_head ∷ []) in
      let (removed, v, _, rest) =
        run-eq-ok (cleanup_new_untracked W (repository W config) before_untracked []) _ u t a e in
      cc

  from_passed :
      (candidate : Candidate) (commands : List ValidationCommand) (before_head : String)
      (before_untracked : List String) (s t u : State) (kept : List ValidationResult × List String)
      (status : String) (results : List ValidationResult) (removed : List String)
      → run_validation_suite W (repository W config) commands s ≡ (ok (status, results, removed), u)
      → (passed : Bool) → (status == "passed") ≡ passed
      → (if passed
            then pure (results, removed)
            else roll_back W config candidate before_head before_untracked [])
          u
        ≡ (ok kept, t)
      → Ran commands kept.0 false
  from_passed candidate commands before_head before_untracked s t u kept status results removed ran
        true same e =
      let kept_results : results ≡ kept.0 = cc in
      elim (run_validation_suite-Ran W (repository W config) commands s u status results removed
        ran) [
          | inl (failed, _) ↦
              absurd (failed_ne_passed (sym failed ∙ (eq_iff status "passed").0 same))
          | inr (_, reports, _) ↦ subst (λ rs. Ran commands rs false) kept_results reports
        ]
  from_passed candidate commands before_head before_untracked s t u kept status results removed ran
        false same e =
      absurd
        (true_ne_false (roll_back-No-return candidate before_head before_untracked [] u t kept e))

  validate-Ran :
      (candidate : Candidate) (commands : List ValidationCommand) (before_head : String)
      (before_untracked : List String) (s t : State) (kept : List ValidationResult × List String)
      → validate_or_roll_back W config candidate commands before_head before_untracked s
        ≡ (ok kept, t)
      → Ran commands kept.0 false
  unfolding validate_or_roll_back caught judged
  validate-Ran candidate commands before_head before_untracked s t kept e =
      from_suite (run_validation_suite W (repository W config) commands s) refl e
    where
      from_suite :
          (r : Result (String × List ValidationResult × List String) × State)
          → run_validation_suite W (repository W config) commands s ≡ r
          → caught W config candidate before_head before_untracked r.0 r.1 ≡ (ok kept, t)
          → Ran commands kept.0 false
      from_suite (ok (status, results, removed), u) ran e =
          from_passed candidate commands before_head before_untracked s t u kept status results
            removed ran (status == "passed") refl e
      from_suite (err (validation m), u) ran e = absurd (
          true_ne_false
            (roll_back-No-return candidate before_head before_untracked (": " ∷ m) u t kept e))
      from_suite (err (general m), u) ran e = cc
      from_suite (err (configuration m), u) ran e = cc
      from_suite (err (git m), u) ran e = cc
      from_suite (err (provider m), u) ran e = cc
      from_suite (err (value_error m), u) ran e = cc
      from_suite (err (runtime_error m), u) ran e = cc
      from_suite (err (key_error m), u) ran e = cc
      from_suite (err (os_error m), u) ran e = cc
      from_suite (err (type_error m), u) ran e = cc
      from_suite (err recursion, u) ran e = cc

  merge_and_validate-Ran :
      (candidate : Candidate) (commands : List ValidationCommand) (plan : Planned) (s t : State)
      (done : Merged)
      → merge_and_validate W config candidate commands plan s ≡ (ok done, t)
      → Ran commands done.validation false
  unfolding merge_and_validate
  merge_and_validate-Ran candidate commands plan s t done e =
      let (before, s1, _, e1) =
        run-eq-ok (gets (λ s. untracked_files W s (repository W config))) _ s t done e in
      let (s2, merge) =
        W.command s1 (repository W config)
          ("merge" ∷ "--no-ff" ∷ "--no-edit" ∷ candidate.branch ∷ []) in
      let (_, s3, _, e3) = run-eq-ok (merged_or_abort W config candidate merge) _ s2 t done e1 in
      let (after, s4, _, e4) =
        run-eq-ok (gets (λ s. head W s (repository W config) "HEAD")) _ s3 t done e3 in
      let (kept, s5, ran, e5) =
        run-eq-ok (validate_or_roll_back W config candidate commands plan.before_head before) _ s4 t
          done e4 in
      subst (λ rs. Ran commands rs false) (ap (λ m. m.validation) (last_ok _ done s5 t e5))
        (validate-Ran candidate commands plan.before_head before s4 s5 kept ran)
    where
      last_ok : (m n : Merged) (u v : State) → pure m u ≡ (ok n, v) → m ≡ n
      last_ok m n u v h = cc

  sync_back-Validated :
      (commands : List ValidationCommand) (back : Bool) (original : String) (done : Merged)
      (s t : State) (payload : Payload)
      → Ran commands done.validation false
      → sync_back W config back original done s ≡ (ok payload, t)
      → Validated true commands payload
  unfolding sync_back
  sync_back-Validated commands false original done s t payload ran e =
      let same : merged_and_validated done ≡ payload = cc in
      subst (Validated true commands) same (refl, ran)
  sync_back-Validated commands true original done s t payload ran e =
      let (_, s1, _, e1) =
        run-eq-ok (run_git W (repository W config) ("switch" ∷ original ∷ [])) _ s t payload e in
      let (s2, reply) =
        W.command s1 (repository W config)
          ("merge" ∷ "--ff-only" ∷ config.integration_branch ∷ []) in
      let (_, s3, _, e3) = run-eq-ok (follow W config reply) _ s2 t payload e1 in
      let (tip, s4, _, e4) =
        run-eq-ok (gets (λ s. head W s (repository W config) "HEAD")) _ s3 t payload e3 in
      let same : fast_forwarded done original tip ≡ payload = cc in
      subst (Validated true commands) same (refl, ran)

  carry_out-Validated :
      (execute : Bool) (candidate : Candidate) (commands : List ValidationCommand) (back : Bool)
      (plan : Planned) (s t : State) (payload : Payload)
      → carry_out W config execute candidate commands back plan s ≡ (ok payload, t)
      → Validated execute commands payload
  unfolding carry_out
  carry_out-Validated true candidate commands back plan s t payload e =
      let (done, u, ran, rest) =
        run-eq-ok (merge_and_validate W config candidate commands plan)
          (sync_back W config back plan.original_branch) s t payload e in
      sync_back-Validated commands back plan.original_branch done u t payload
        (merge_and_validate-Ran candidate commands plan s u done ran) rest
  carry_out-Validated false candidate commands true plan s t payload e =
      let (_, u, _, rest) =
        run-eq-ok
          (run_git W (repository W config) ("switch" ∷ plan.original_branch ∷ []) >>= λ _. pure tt)
          (λ _. pure (planned plan)) s t payload e in
      let same : planned plan ≡ payload = cc in subst (Validated false commands) same refl
  carry_out-Validated false candidate commands false plan s t payload e =
      let same : planned plan ≡ payload = cc in subst (Validated false commands) same refl

  returned-ok :
      (back : Bool) (original : String) (r : Result Payload) (s t : State) (payload : Payload)
      → returned W config back original r s ≡ (ok payload, t)
      → r ≡ ok payload
  unfolding returned switch_back
  returned-ok back original (ok found) s t payload e = cc
  returned-ok false original (err raised) s t payload e = cc
  returned-ok true original (err raised) s t payload e =
      let (clean, u, _, rest) =
        run-eq-ok (gets (λ s. tracked_is_clean W s (repository W config)))
          (switch_back W config original raised) s t payload e in
      absurd (true_ne_false (no_return clean u rest))
    where
      no_return :
          (clean : Bool) (u : State)
          → switch_back W config original raised clean u ≡ (ok payload, t)
          → true ≡ false
      no_return true u h = cc
      no_return false u h = cc

  attempt-Validated :
      (execute : Bool) (candidate : Candidate) (commands : List ValidationCommand)
      (original : String) (back : Bool) (s t : State) (payload : Payload)
      → attempt W config execute candidate commands original back s ≡ (ok payload, t)
      → Validated execute commands payload
  unfolding attempt
  attempt-Validated execute candidate commands original back s t payload e =
      let (actual, s1, _, e1) =
        run-eq-ok (gets (λ s. head W s (repository W config) candidate.branch)) _ s t payload e in
      let (_, s2, _, e2) =
        run-eq-ok (refuse (not (starts_with actual candidate.head)) _) _ s1 t payload e1 in
      let (_, s3, _, e3) =
        run-eq-ok
          (refuse
            (branch_is_ancestor W s2 (repository W config) candidate.branch
              config.integration_branch)
            _)
          _ s2 t payload e2 in
      let (_, s4, _, e4) =
        run-eq-ok (gets (λ s. head W s (repository W config) "HEAD")) _ s3 t payload e3 in
      carry_out-Validated execute candidate commands back _ s4 t payload e4

  -- Whenever `integrate_one` returns: without `execute` its payload is the plan, and with it the
  -- payload carries the results of the commands in order, and no required command failed. So no
  -- merge is reported whose validation did not pass.
  pub integrate_one-Validated :
      (execute : Bool) (candidate : Candidate) (commands : List ValidationCommand) (s t : State)
      (payload : Payload)
      → integrate_one W config candidate commands execute s ≡ (ok payload, t)
      → Validated execute commands payload
  unfolding integrate_one try_attempt
  integrate_one-Validated execute candidate commands s t payload e =
      let (original, s1, _, e1) =
        run-eq-ok (gets (λ s. current_branch W s (repository W config))) _ s t payload e in
      let (clean, s2, _, e2) =
        run-eq-ok (gets (λ s. tracked_is_clean W s (repository W config))) _ s1 t payload e1 in
      let (_, s3, _, e3) = run-eq-ok (refuse (not clean) _) _ s2 t payload e2 in
      let (_, s4, _, e4) =
        run-eq-ok
          (refuse (not (branch_exists W s3 (repository W config) config.integration_branch)) _) _ s3
          t payload e3 in
      let (switched, s5, _, e5) = run-eq-ok (switch_to W config original) _ s4 t payload e4 in
      let back = switched && not (original == "") in
      from_attempt original back s5 (attempt W config execute candidate commands original back s5)
        refl e5
    where
      from_attempt :
          (original : String) (back : Bool) (u : State) (r : Result Payload × State)
          → attempt W config execute candidate commands original back u ≡ r
          → returned W config back original r.0 r.1 ≡ (ok payload, t)
          → Validated execute commands payload
      from_attempt original back u r ran e =
          let found : r.0 ≡ ok payload = returned-ok back original r.0 r.1 t payload e in
          attempt-Validated execute candidate commands original back u r.1 payload
            (ran ∙ ap (λ q. (q, r.1)) found)
