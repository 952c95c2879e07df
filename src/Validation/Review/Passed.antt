-- ===== src/Validation/Review/Passed.antt =====
-- When an automatic review passes.
use railwarden.Base.{
  String, ◌==◌, Bool, true, false, not, ◌&&◌, Option, some, List, ◌++◌, Result, ok, err, ◌≡◌, refl,
  sym, ap, ◌↔◌, ◌≢◌, eq_iff, true_ne_false,
}
use railwarden.Config.{WorkPackage}
use railwarden.Value.{str, Fields, get, put, Show}
use railwarden.Runtime.{Runtime}
use railwarden.Validation.Paths.{validate_owned_paths}
use railwarden.Validation.Review.{
  reviewer_for, evidence_passed, finding_if, ownership_finding, findings_of, review_status,
  run_package_review,
}

failed_is_no_pass : ◌≢◌ {A = String} "failed" "passed"
failed_is_no_pass e = true_ne_false (sym ((eq_iff "failed" "passed").1 e))

status_iff :
    (self unvalidated : Bool) (first second : String) (owned : Result (Unit {0}))
    → (review_status
          (finding_if self first ++ finding_if unvalidated second ++ ownership_finding owned)
        ≡ "passed")
      ↔ ((self ≡ false) × (unvalidated ≡ false) × (owned ≡ ok tt))
status_iff true unvalidated first second owned =
    (λ e. absurd (failed_is_no_pass e), λ h. let e = h.0 in absurd (true_ne_false e))
status_iff false true first second owned =
    (λ e. absurd (failed_is_no_pass e), λ h. let e = h.1 in absurd (true_ne_false e))
status_iff false false first second (ok tt) = (λ e. (refl, refl, refl), λ h. refl)
status_iff false false first second (err raised) =
    (λ e. absurd (failed_is_no_pass e), λ h. let e = h.2 in absurd (cc))

-- The review does not fail, whatever it finds: it returns a dict. Its status is "passed" exactly if
-- the reviewer is not the worker or no review is required, the evidence of the validation has
-- passed, and `validate_owned_paths` accepts the changed files.
pub run_package_review-passed_iff :
    (show : Show) (p : WorkPackage) (task : Fields) (worker : String) (reviewer : Option String)
    (changed_files : List String) (evidence : Fields) (rt : Runtime)
    → (payload : Fields) × (t : Runtime) × (run_package_review show p task worker reviewer
          changed_files evidence rt
        ≡ (ok payload, t))
      × ((get "status" payload ≡ some (str "passed")) ↔ (
          ((reviewer_for p reviewer == worker && p.review_required) ≡ false)
          × (not (evidence_passed evidence) ≡ false)
          × (validate_owned_paths changed_files changed_files p.owned_paths p.forbidden_paths
              ≡ ok tt)))
unfolding run_package_review findings_of get put
run_package_review-passed_iff show p task worker reviewer changed_files evidence rt =
    let (to, from) =
      status_iff (reviewer_for p reviewer == worker && p.review_required)
        (not (evidence_passed evidence)) "Reviewer provider must differ from worker provider."
        "Package validation has not passed."
        (validate_owned_paths changed_files changed_files p.owned_paths p.forbidden_paths) in
    (_, _, refl, (λ e. to (cc), λ h. ap (λ s. some (str s)) (from h)))
