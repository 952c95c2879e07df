-- ===== src/Validation/Runner/Suite.antt =====
-- What a status of a validation suite says of its commands.
use railwarden.Base.{
  ℕ, String, eq_iff, Bool, true, false, not, ◌||◌, Option, none, some, List, [], ◌∷◌, Result, ok,
  ◌≡◌, refl, ◌≢◌, sym, subst, ◌⊎◌, inl, inr, nat_eq, if◌then◌else◌, arith, true_ne_false,
  validation,
}
use railwarden.Base.Exec.{Exec, ◌>>=◌, pure, gets, refuse, run-eq-ok}
use railwarden.Config.{FilePath, ValidationCommand}
use railwarden.World.{World, Reply, tracked_is_clean, untracked_files}
use railwarden.Validation.Runner.{
  unless_broke, passed_if, verdict, after_commands, ValidationResult, breaks, resolve_cwd,
  run_validation_command, run_commands, any_breaks, run_validation_suite, cleanup_new_untracked,
  all_outputs, finished,
}

-- The result of a command: its name and argv, and for a required one whose status is "passed" the
-- return code 0.
abbrev pub Reports : ValidationCommand → ValidationResult → Type 0
Reports command result =
    (result.name ≡ command.name)
    × (result.command ≡ command.argv)
    × (result.required ≡ command.required)
    × (result.status ≡ "passed" → result.returncode ≡ 0)

-- The results of the commands in their order, up to the first required command whose status is
-- not "passed"; the flag says whether there is one.
pub data Ran : List ValidationCommand → List ValidationResult → Bool → Type 0 where
  done : Ran [] [] false
  stopped :
      {c : ValidationCommand} {cs : List ValidationCommand} {r : ValidationResult}
      → Reports c r
      → breaks r ≡ true
      → Ran (c ∷ cs) (r ∷ []) true
  more :
      {c : ValidationCommand} {cs : List ValidationCommand} {r : ValidationResult}
      {rs : List ValidationResult} {b : Bool}
      → Reports c r
      → breaks r ≡ false
      → Ran cs rs b
      → Ran (c ∷ cs) (r ∷ rs) b

pub failed_ne_passed : ◌≢◌ {A = String} "failed" "passed"
failed_ne_passed e = true_ne_false (sym ((eq_iff "failed" "passed").1 e))

passed_code :
    (code : ℕ) → ◌≡◌ {A = String} (if nat_eq code 0 then "passed" else "failed") "passed" → code ≡ 0
passed_code code e = ground (arith, failed_ne_passed)

module _ (W : World) (repository : FilePath) where
  open W use {State}

  finished-Reports :
      (command : ValidationCommand) (reply : Option Reply)
      → Reports command (finished W repository command reply)
  finished-Reports command none = (refl, refl, refl, λ e. absurd (failed_ne_passed e))
  finished-Reports command (some reply) = (refl, refl, refl, λ e. passed_code reply.returncode e)

  run_validation_command-Reports :
      (command : ValidationCommand) (s t : State) (result : ValidationResult)
      → run_validation_command W repository command s ≡ (ok result, t)
      → Reports command result
  unfolding run_validation_command
  run_validation_command-Reports command s t result e =
      let (cwd, u, _, ran) =
        run-eq-ok (gets (resolve_cwd W repository command.cwd))
          (λ cwd s.
            let (t, reply) = W.execute s cwd command.argv in
            (ok (finished W repository command reply), t))
          s t result e in
      let same : finished W repository command (W.execute u cwd command.argv).1 ≡ result = cc in
      subst (Reports command) same (finished-Reports command (W.execute u cwd command.argv).1)

  -- A command's result with those of the commands that ran after it.
  extended_run :
      (command : ValidationCommand) (commands : List ValidationCommand) (result : ValidationResult)
      (later : List ValidationResult) (u v : State)
      → Reports command result
      → ((rs : List ValidationResult)
          → run_commands W repository commands u ≡ (ok rs, v)
          → Ran commands rs (any_breaks rs))
      → (broke : Bool) → breaks result ≡ broke
      → unless_broke W repository broke (run_commands W repository commands) u ≡ (ok later, v)
      → Ran (command ∷ commands) (result ∷ later) (any_breaks (result ∷ later))
  unfolding any_breaks
  extended_run command commands result later u v reports induct true broke remaining =
      let none_later : [] ≡ later = cc in
      subst (λ rs. Ran (command ∷ commands) (result ∷ rs) (breaks result || any_breaks rs))
        none_later (rw broke (stopped reports broke))
  extended_run command commands result later u v reports induct false fine remaining =
      rw fine (more reports fine (induct later remaining))

  run_commands-Ran :
      (commands : List ValidationCommand) (s t : State) (results : List ValidationResult)
      → run_commands W repository commands s ≡ (ok results, t)
      → Ran commands results (any_breaks results)
  unfolding run_commands any_breaks
  run_commands-Ran [] s t results e =
      let same : [] ≡ results = cc in subst (λ rs. Ran [] rs (any_breaks rs)) same done
  run_commands-Ran (command ∷ commands) s t results e =
      let (result, u, ran, rest) =
        run-eq-ok (run_validation_command W repository command)
          (λ result.
            unless_broke W repository (breaks result) (run_commands W repository commands)
            >>= λ later. pure (result ∷ later))
          s t results e in
      let reports = run_validation_command-Reports command s u result ran in
      let (later, v, remaining, last) =
        run-eq-ok (unless_broke W repository (breaks result) (run_commands W repository commands))
          (λ later. pure (result ∷ later)) u t results rest in
      let same : result ∷ later ≡ results = cc in
      subst (λ rs. Ran (command ∷ commands) rs (any_breaks rs)) same
        (extended_run command commands result later u v reports
          (λ rs h. run_commands-Ran commands u v rs h) (breaks result) refl remaining)

  verdict_cases :
      (commands : List ValidationCommand) (s t : State) (results found : List ValidationResult)
      (removed gone : List String) (status : String) (broke : Bool)
      → Ran commands found broke
      → verdict W repository found gone broke s ≡ (ok (status, results, removed), t)
      → ((status ≡ "failed") × Ran commands results true)
        ⊎ ((status ≡ "passed")
            × Ran commands results false
            × (tracked_is_clean W t repository ≡ ok true))
  unfolding verdict
  verdict_cases commands s t results found removed gone status true ran e =
      let same : found ≡ results = cc in inl (cc, subst (λ rs. Ran commands rs true) same ran)
  verdict_cases commands s t results found removed gone status false ran e =
      let (still, u, asked, rest) =
        run-eq-ok (gets (λ s. tracked_is_clean W s repository)) (passed_if W repository found gone)
          s t (status, results, removed) e in
      clean_end still u asked rest
    where
      clean_end :
          (still : Bool) (u : State)
          → ◌≡◌ {A = Result Bool × State} (tracked_is_clean W s repository, s) (ok still, u)
          → passed_if W repository found gone still u ≡ (ok (status, results, removed), t)
          → ((status ≡ "failed") × Ran commands results true)
            ⊎ ((status ≡ "passed")
                × Ran commands results false
                × (tracked_is_clean W t repository ≡ ok true))
      clean_end true u asked rest =
          let same : found ≡ results = cc in
          let here : s ≡ t = cc in
          let clean : tracked_is_clean W s repository ≡ ok true = cc in
          inr (
            cc,
            subst (λ rs. Ran commands rs false) same ran,
            subst (λ v. tracked_is_clean W v repository ≡ ok true) here clean,
          )
      clean_end false u asked rest = cc

  -- What `run_validation_suite` returns: the results are those of the commands in order, up to the
  -- first required command that did not pass. The status is "failed" if there is such a command,
  -- and "passed" if there is none; then the tracked files are unchanged at the end.
  pub run_validation_suite-Ran :
      (commands : List ValidationCommand) (s t : State) (status : String)
      (results : List ValidationResult) (removed : List String)
      → run_validation_suite W repository commands s ≡ (ok (status, results, removed), t)
      → ((status ≡ "failed") × Ran commands results true)
        ⊎ ((status ≡ "passed")
            × Ran commands results false
            × (tracked_is_clean W t repository ≡ ok true))
  unfolding run_validation_suite after_commands
  run_validation_suite-Ran commands s t status results removed e =
      let (clean, s1, _, e1) =
        run-eq-ok (gets (λ s. tracked_is_clean W s repository))
          (λ clean.
            refuse (not clean)
              (validation ("Repository has tracked changes before validation" ∷ []))
            >>= λ _. looked)
          s t (status, results, removed) e in
      let (_, s2, _, e2) =
        run-eq-ok
          (refuse (not clean)
            (validation ("Repository has tracked changes before validation" ∷ [])))
          (λ _. looked) s1 t (status, results, removed) e1 in
      let (before, s3, _, e3) =
        run-eq-ok (gets (λ s. untracked_files W s repository))
          (λ before.
            run_commands W repository commands >>= after_commands W repository before commands)
          s2 t (status, results, removed) e2 in
      let (found, s4, ran, e4) =
        run-eq-ok (run_commands W repository commands) (after_commands W repository before commands)
          s3 t (status, results, removed) e3 in
      let (gone, s5, _, e5) =
        run-eq-ok (cleanup_new_untracked W repository before (all_outputs commands))
          (λ gone. verdict W repository found gone (any_breaks found)) s4 t
          (status, results, removed) e4 in
      verdict_cases commands s5 t results found removed gone status (any_breaks found)
        (run_commands-Ran commands s3 s4 found ran) e5
    where
      looked : Exec State (String × List ValidationResult × List String)
      looked = gets (λ s. untracked_files W s repository) >>= λ before.
          run_commands W repository commands >>= after_commands W repository before commands
