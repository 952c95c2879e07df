-- ===== src/Validation/Review.antt =====
-- validation/review.py: the automatic review of a package, and whether a human must approve its
-- merge. The evidence of the validation is the dict that it wrote.
pub mod Passed
use railwarden.Base.{
  String, ◌<>◌, ◌==◌, Bool, true, false, not, ◌&&◌, ◌||◌, Option, none, some, List, [], ◌∷◌, ◌++◌,
  Result, ok, err, Error, Message, railwarden as general, configuration, git, validation, provider,
  value_error, runtime_error, key_error, os_error, type_error, recursion, join, contains, insert,
  if◌then◌else◌,
}
use railwarden.Config.{WorkPackage}
use railwarden.Text.{lower, shorten}
use railwarden.Value.{
  Value, null, num, str, flag, arr, Fields, end, field, get, get_or, put, texts, truthy, Show,
  to_str, obj,
}
use railwarden.Runtime.{Runtime, Action}
use railwarden.Validation.Paths.{validate_owned_paths}

unfoldable pub requires_human_merge_approval : WorkPackage → Bool
unfolding lower contains
requires_human_merge_approval work_package =
    work_package.approval_required
    || contains ("high" ∷ "critical" ∷ []) (lower work_package.risk_level)
    || work_package.merge_policy == "manual"

-- `str(exc)`
unfoldable pub message_of : Error → String
message_of (general m) = join m
message_of (configuration m) = join m
message_of (git m) = join m
message_of (validation m) = join m
message_of (provider m) = join m
message_of (value_error m) = join m
message_of (runtime_error m) = join m
message_of (key_error m) = join m
message_of (os_error m) = join m
message_of (type_error m) = join m
message_of recursion = "maximum recursion depth exceeded"

-- `reviewer_provider or package.reviewer_profile or "railwarden-local-reviewer"`
abbrev first_text : Option String → String → String
first_text none default = default
first_text (some s) default = if s == "" then default else s

unfoldable pub reviewer_for : WorkPackage → Option String → String
reviewer_for work_package reviewer_provider =
    first_text reviewer_provider
      (first_text work_package.reviewer_profile "railwarden-local-reviewer")

-- `validation_evidence.get("status") == "passed"`
abbrev pub evidence_passed : Fields → Bool
evidence_passed evidence = elim (get_or "status" null evidence) [
  | str s ↦ s == "passed"
  | _ ↦ false
]

abbrev pub finding_if : Bool → String → List String
finding_if b finding = if b then finding ∷ [] else []

abbrev pub ownership_finding : Result (Unit {0}) → List String
ownership_finding (ok _) = []
ownership_finding (err e) = message_of e ∷ []

-- The findings; the status is "failed" exactly if there is one.
unfoldable pub findings_of :
    WorkPackage → String → Option String → List String → Fields → List String
unfolding reviewer_for message_of
findings_of work_package worker_provider reviewer_provider changed_files evidence =
    finding_if
      (reviewer_for work_package reviewer_provider == worker_provider
        && work_package.review_required)
      "Reviewer provider must differ from worker provider."
    ++ finding_if (not (evidence_passed evidence)) "Package validation has not passed."
    ++ ownership_finding (
        validate_owned_paths changed_files changed_files work_package.owned_paths
          work_package.forbidden_paths)

abbrev pub review_status : List String → String
review_status [] = "passed"
review_status (_ ∷ _) = "failed"

-- `str(task.get("commit_hash") or "unknown")`
abbrev commit_of : Show → Fields → String
commit_of show task =
    let v = get_or "commit_hash" null task in if truthy v then to_str show v else "unknown"

-- The payload and the path of the evidence file.
unfoldable pub run_package_review :
    Show → WorkPackage → Fields → String → Option String → List String → Fields → Action Fields
unfolding findings_of insert shorten get put
run_package_review show work_package task worker_provider reviewer_provider changed_files evidence
      rt =
    let findings =
      findings_of work_package worker_provider reviewer_provider changed_files evidence in
    let path =
      work_package.package_id <> "-" <> shorten 12 (commit_of show task) <> "-review.json" in
    let payload : Fields = field "schema_version" (str "2.0.0") (
      field "package_id" (str work_package.package_id) (
        field "task_id" (get_or "id" null task) (
          field "worker_provider" (str worker_provider) (
            field "reviewer_provider" (str (reviewer_for work_package reviewer_provider)) (
              field "status" (str (review_status findings)) (
                field "findings" (arr (texts findings)) (
                  field "validation_evidence" (get_or "evidence_path" null evidence) (
                    field "human_merge_approval_required"
                      (flag (requires_human_merge_approval work_package))
                      (field "created_at" (num rt.clock) end))))))))) in
    (
      ok (put "evidence_path" (str ("reviews/" <> path)) payload),
      record rt { evidence = insert ("reviews/" <> path) (obj payload) rt.evidence },
    )
