-- ===== src/Validation/Paths.antt =====
-- validation/paths.py: which changed files a package may have. The parts of a `PurePosixPath` are
-- those of the text between slashes that are neither empty nor a single dot, and a leading slash.
pub mod Within
pub mod Owned
use railwarden.Base.{
  String, ◌<>◌, ◌==◌, starts_with, Bool, true, false, not, ◌&&◌, ◌||◌, List, [], ◌∷◌, map, Result,
  ok, err, validation, raise_if, ◌>>=◌, ◌>>◌, contains, sorted, if◌then◌else◌,
}
use railwarden.Text.{strip, slashed, rstrip_slash, drop_dots, split_slash}

unfoldable pub normalize_repo_path : String → String
unfolding strip slashed rstrip_slash drop_dots
normalize_repo_path path = rstrip_slash (drop_dots (slashed (strip path)))

-- The tests of `path_is_within` on the two normalized paths.
unfoldable pub is_within : String → String → Bool
unfolding split_slash contains
is_within path root =
    if starts_with path "/" || contains (split_slash path) ".."
    then false
    else path == root || starts_with path (root <> "/")

unfoldable pub path_is_within : String → String → Bool
unfolding normalize_repo_path is_within
path_is_within path root = is_within (normalize_repo_path path) (normalize_repo_path root)

-- `any(path_is_within(path, root) for root in roots)`
unfoldable pub within_any : List String → String → Bool
unfolding path_is_within
within_any [] path = false
within_any (root ∷ roots) path = path_is_within path root || within_any roots path

-- `[path for path in paths if test(path)]`
unfoldable pub select : (String → Bool) → List String → List String
select test [] = []
select test (x ∷ xs) = let rest = select test xs in if test x then x ∷ rest else rest

-- `if bad: raise ValidationError(...)` for a list
abbrev pub refuse_listed : String → List String → Result (Unit {0})
refuse_listed message [] = ok tt
refuse_listed message (x ∷ xs) = err (validation (message ∷ sorted (x ∷ xs)))

-- `if not owned_paths: raise ...`
abbrev pub refuse_unowned : List String → Result (Unit {0})
refuse_unowned [] = err (validation ("Package does not define owned paths" ∷ []))
refuse_unowned (_ ∷ _) = ok tt

-- `xs - ys` for sets
abbrev pub lacking : List String → List String → List String
lacking ys = select (λ x. not (contains ys x))

-- `if changed_set != reported_set: raise ...`
abbrev pub refuse_mismatch : List String → List String → Result (Unit {0})
refuse_mismatch [] [] = ok tt
refuse_mismatch (x ∷ missing) extra =
    err (validation ("changed_files mismatch: missing=" ∷ sorted (x ∷ missing)))
refuse_mismatch [] (x ∷ extra) =
    err (validation ("changed_files mismatch: extra=" ∷ sorted (x ∷ extra)))

unfoldable pub validate_owned_paths :
    List String → List String → List String → List String → Result (Unit {0})
unfolding within_any select
validate_owned_paths changed_files reported_files owned_paths forbidden_paths = do
  refuse_unowned owned_paths
  refuse_listed "Changed files outside owned paths: "
      (select (λ path. not (within_any owned_paths path)) changed_files)
  refuse_listed "Forbidden paths changed: " (select (within_any forbidden_paths) changed_files)
  let changed_set = map normalize_repo_path changed_files
  let reported_set = map normalize_repo_path reported_files
  refuse_mismatch (lacking reported_set changed_set) (lacking changed_set reported_set)
