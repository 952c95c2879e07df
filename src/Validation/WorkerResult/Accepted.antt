-- ===== src/Validation/WorkerResult/Accepted.antt =====
-- What an accepted result of a worker says of its worktree.
use railwarden.Base.{
  String, ◌==◌, Bool, true, false, not, Option, none, some, List, [], ◌∷◌, ok, Message, raise_if,
  contains, All, ◌≢◌, sym, arith, bind-eq-ok, validation, ◌≡◌, refl, ap, ◌∙◌, eq_iff,
}
use railwarden.Config.{FilePath, WorkPackage}
use railwarden.World.{
  World, head, output, current_branch, tracked_is_clean, changed_files_in_commit,
}
use railwarden.Value.{
  Value, str, num, flag, null, obj, arr, Items, Fields, dicts, Show, get, put, texts, text_of,
  to_str,
}
use railwarden.Value.Laws.{get-put_self, get-put_ne}
use railwarden.Validation.Paths.{validate_owned_paths}
use railwarden.Validation.WorkerResult.{
  is_completed, to_texts, reported_files, tests_of, any_failed, validate_tests, text_or, accepted,
  check_branch, check_head, check_files, check_completed, validate_completed_package,
}

-- A test that did not raise was false.
passed_raise : (b : Bool) (m : Message) → raise_if (not b) (validation m) ≡ ok tt → b ≡ true
passed_raise true m e = refl
passed_raise false m e = cc

passed_tests : (b : Bool) (m : Message) → raise_if b (validation m) ≡ ok tt → b ≡ false
passed_tests true m e = cc
passed_tests false m e = refl

-- A test that is neither reported as failed nor as not run.
abbrev pub Passed : Show → Fields → Type 0
Passed show test =
    (text_of show "status" test ≢ "failed") × (text_of show "status" test ≢ "not_run")

any_failed-Passed :
    (show : Show) (tests : List Fields) → any_failed show tests ≡ false → All (Passed show) tests
unfolding any_failed contains
any_failed-Passed show [] e = tt
any_failed-Passed show (test ∷ tests) e =
    let status = text_of show "status" test in
    (
      (
        λ same. ground (arith, (eq_iff status "failed").1 same),
        λ same. ground (arith, (eq_iff status "not_run").1 same),
      ),
      any_failed-Passed show tests (ground (arith)),
    )

to_texts-texts : (show : Show) (xs : List String) → to_texts show (texts xs) ≡ xs
unfolding to_texts to_str
to_texts-texts show [] = refl
to_texts-texts show (x ∷ xs) = ap (λ ys. x ∷ ys) (to_texts-texts show xs)

-- The commit at the head of the worktree changes files that the package owns. They agree with the
-- changed files of the accepted result, and of its tests none is failed or not run.
abbrev pub OwnedCommit :
    (W : World) → Show → W.State → WorkPackage → FilePath → String → Fields → Type 0
OwnedCommit W show s p workspace commit final =
    (changed : List String) × (reported tests : Items) × (changed_files_in_commit W s workspace
        commit
      ≡ ok changed)
    × (get "changed_files" final ≡ some (arr reported))
    × (validate_owned_paths changed (to_texts show reported) p.owned_paths p.forbidden_paths
        ≡ ok tt)
    × (get "tests" final ≡ some (arr tests))
    × All (Passed show) (dicts tests)

-- What `reported_files` gives stands in the dict.
reported_files-get :
    (show : Show) (result : Fields) (changed : List String)
    → (items : Items) × (get "changed_files" (reported_files show result changed).1
        ≡ some (arr items))
      × ((reported_files show result changed).0 ≡ to_texts show items)
reported_files-get show result changed = by_value (get "changed_files" result) refl
  where
    by_value :
        (o : Option Value)
        → get "changed_files" result ≡ o
        → (items : Items) × (get "changed_files" (reported_files show result changed).1
            ≡ some (arr items))
          × ((reported_files show result changed).0 ≡ to_texts show items)
    by_value (some (arr items)) e = (items, rw (e, reported_files) e, rw (e, reported_files) refl)
    by_value none e = (
      texts changed,
      rw (e, reported_files) (get-put_self "changed_files" (arr (texts changed)) result),
      rw (e, reported_files) (sym (to_texts-texts show changed)),
    )
    by_value (some (str t)) e = (
      texts changed,
      rw (e, reported_files) (get-put_self "changed_files" (arr (texts changed)) result),
      rw (e, reported_files) (sym (to_texts-texts show changed)),
    )
    by_value (some (num n)) e = (
      texts changed,
      rw (e, reported_files) (get-put_self "changed_files" (arr (texts changed)) result),
      rw (e, reported_files) (sym (to_texts-texts show changed)),
    )
    by_value (some (flag b)) e = (
      texts changed,
      rw (e, reported_files) (get-put_self "changed_files" (arr (texts changed)) result),
      rw (e, reported_files) (sym (to_texts-texts show changed)),
    )
    by_value (some null) e = (
      texts changed,
      rw (e, reported_files) (get-put_self "changed_files" (arr (texts changed)) result),
      rw (e, reported_files) (sym (to_texts-texts show changed)),
    )
    by_value (some (obj d)) e = (
      texts changed,
      rw (e, reported_files) (get-put_self "changed_files" (arr (texts changed)) result),
      rw (e, reported_files) (sym (to_texts-texts show changed)),
    )

-- The tests that `tests_of` gives stand in the dict, and it leaves the changed files.
tests_of-get :
    (show : Show) (result : Fields)
    → (get "tests" (tests_of show result).1 ≡ some (arr (tests_of show result).0))
      × (get "changed_files" (tests_of show result).1 ≡ get "changed_files" result)
tests_of-get show result = by_value (get "tests" result) refl
  where
    written :
        (v : Value)
        → (get "tests" (put "tests" v result) ≡ some v)
          × (get "changed_files" (put "tests" v result) ≡ get "changed_files" result)
    written v = (get-put_self "tests" v result, get-put_ne "tests" "changed_files" v result refl)

    by_value :
        (o : Option Value)
        → get "tests" result ≡ o
        → (get "tests" (tests_of show result).1 ≡ some (arr (tests_of show result).0))
          × (get "changed_files" (tests_of show result).1 ≡ get "changed_files" result)
    by_value (some (arr items)) e = rw (e, tests_of) (e, refl)
    by_value (some (obj d)) e = rw (e, tests_of) (written _)
    by_value none e = rw (e, tests_of) (written _)
    by_value (some (str t)) e = rw (e, tests_of) (written _)
    by_value (some (num n)) e = rw (e, tests_of) (written _)
    by_value (some (flag b)) e = rw (e, tests_of) (written _)
    by_value (some null) e = rw (e, tests_of) (written _)

module _ (W : World) (show : Show) (schema_error : Fields → Option Message) where
  open W use {State}

  check_files-Owned :
      (s : State) (p : WorkPackage) (result : Fields) (workspace : FilePath) (commit : String)
      (final : Fields)
      → check_files show W schema_error s p result workspace commit ≡ ok final
      → OwnedCommit W show s p workspace commit final
  unfolding check_files validate_tests
  check_files-Owned s p result workspace commit final e =
      let (changed, read, e1) = bind-eq-ok (changed_files_in_commit W s workspace commit) _ e in
      let reported = reported_files show result changed in
      let items = (tests_of show reported.1).0 in
      let (_, owned, e2) =
        bind-eq-ok (validate_owned_paths changed reported.0 p.owned_paths p.forbidden_paths) _ e1 in
      let (_, tested, e3) = bind-eq-ok (validate_tests show p.package_id (dicts items)) _ e2 in
      let same : (tests_of show reported.1).1 ≡ final = cc in
      let (listed, at_files, as_texts) = reported_files-get show result changed in
      let (at_tests, kept) = tests_of-get show reported.1 in
      (
        changed,
        listed,
        items,
        read,
        ap (get "changed_files") (sym same) ∙ kept ∙ at_files,
        ap (λ files. validate_owned_paths changed files p.owned_paths p.forbidden_paths)
              (sym as_texts)
            ∙ owned,
        ap (get "tests") (sym same) ∙ at_tests,
        any_failed-Passed show (dicts items)
            (passed_tests (any_failed show (dicts items)) _ tested),
      )

  check_head-Clean :
      (s : State) (p : WorkPackage) (commit_hash : String) (workspace : FilePath) (commit : String)
      → check_head show W schema_error s p commit_hash workspace ≡ ok commit
      → (head W s workspace "HEAD" ≡ ok commit)
        × (output W s workspace ("rev-parse" ∷ commit_hash ∷ []) ≡ ok commit)
        × (tracked_is_clean W s workspace ≡ ok true)
  unfolding check_head
  check_head-Clean s p commit_hash workspace commit e =
      let (tip, found, e1) = bind-eq-ok (head W s workspace "HEAD") _ e in
      let (resolved, parsed, e2) =
        bind-eq-ok (output W s workspace ("rev-parse" ∷ commit_hash ∷ [])) _ e1 in
      let (_, equal, e3) = bind-eq-ok (raise_if (not (resolved == tip)) _) _ e2 in
      let (clean, asked, e4) = bind-eq-ok (tracked_is_clean W s workspace) _ e3 in
      let (_, is_clean, last) = bind-eq-ok (raise_if (not clean) _) _ e4 in
      let same : tip ≡ commit = cc in
      let resolves = (eq_iff resolved tip).0 (passed_raise (resolved == tip) _ equal) in
      (
        found ∙ ap ok same,
        parsed ∙ ap ok (resolves ∙ same),
        asked ∙ ap ok (passed_raise clean _ is_clean),
      )

  check_branch-Expected :
      (s : State) (p : WorkPackage) (result : Fields) (workspace : FilePath)
      (expected_branch : String) (named : String × Fields)
      → check_branch show W schema_error s p result workspace expected_branch ≡ ok named
      → current_branch W s workspace ≡ ok expected_branch
  unfolding check_branch
  check_branch-Expected s p result workspace expected_branch named e =
      let (_, _, e1) =
        bind-eq-ok (text_or show W schema_error "commit_hash" result (head W s workspace "HEAD")) _
          e in
      let (actual, found, e2) = bind-eq-ok (current_branch W s workspace) _ e1 in
      let (reported, _, e3) =
        bind-eq-ok (text_or show W schema_error "branch" result (ok actual)) _ e2 in
      let (_, _, e4) = bind-eq-ok (raise_if (not (actual == reported)) _) _ e3 in
      let (_, equal, _) = bind-eq-ok (raise_if (not (actual == expected_branch)) _) _ e4 in
      found
      ∙ ap ok ((eq_iff actual expected_branch).0 (passed_raise (actual == expected_branch) _ equal))

  -- If `validate_completed_package` accepts a result that claims completion, the worktree is on
  -- the expected branch with no tracked change, and its head is a commit whose changed files
  -- `validate_owned_paths` accepts for the package, against the changed files of the completed
  -- result; and of the tests of the completed result none is failed or not run.
  pub validate_completed_package-Owned :
      (s : State) (p : WorkPackage) (result final : Fields) (workspace : FilePath)
      (expected_branch : String)
      → is_completed result ≡ true
      → validate_completed_package show W schema_error s p result workspace expected_branch
        ≡ ok final
      → (commit : String) × (current_branch W s workspace ≡ ok expected_branch)
        × (head W s workspace "HEAD" ≡ ok commit)
        × (tracked_is_clean W s workspace ≡ ok true)
        × OwnedCommit W show s p workspace commit final
  unfolding validate_completed_package check_completed
  validate_completed_package-Owned s p result final workspace expected_branch claimed e =
      from_schema (schema_error result) e
    where
      from_completed :
          check_completed show W schema_error s p result workspace expected_branch ≡ ok final
          → (commit : String) × (current_branch W s workspace ≡ ok expected_branch)
            × (head W s workspace "HEAD" ≡ ok commit)
            × (tracked_is_clean W s workspace ≡ ok true)
            × OwnedCommit W show s p workspace commit final
      from_completed e =
          let (named, on_branch, e1) =
            bind-eq-ok (check_branch show W schema_error s p result workspace expected_branch) _
              e in
          let (commit, at_head, e2) =
            bind-eq-ok (check_head show W schema_error s p named.0 workspace) _ e1 in
          let (found, _, clean) = check_head-Clean s p named.0 workspace commit at_head in
          (
            commit,
            check_branch-Expected s p result workspace expected_branch named on_branch,
            found,
            clean,
            check_files-Owned s p named.1 workspace commit final e2,
          )

      from_schema :
          (o : Option Message)
          → accepted show W schema_error s p result workspace expected_branch o ≡ ok final
          → (commit : String) × (current_branch W s workspace ≡ ok expected_branch)
            × (head W s workspace "HEAD" ≡ ok commit)
            × (tracked_is_clean W s workspace ≡ ok true)
            × OwnedCommit W show s p workspace commit final
      from_schema (some message) e = cc
      from_schema none e = from_completed (rw (claimed, accepted) at e)
