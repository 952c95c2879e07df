-- ===== src/Validation/Contract.antt =====
-- validation/contract.py, `infer_scaffold_owned_paths`: the files of a project's root that a package
-- that scaffolds the project owns too. A package is a dict here, and its owned paths are texts.
use railwarden.Base.{String, Bool, ◌||◌, List, [], ◌∷◌, ◌++◌, contains, if◌then◌else◌}
use railwarden.Text.{lower, has_text, ends_with, upper}

-- `for extra in ...: if extra not in existing: ...`
unfoldable pub add_missing : List String → List String → List String
unfolding contains
add_missing [] owned = owned
add_missing (extra ∷ extras) owned =
    let kept = add_missing extras owned in
    let added = add_missing extras (owned ++ (extra ∷ [])) in
    if contains owned extra then kept else added

abbrev pub root_files : List String
root_files =
    "package.json" ∷ "package-lock.json" ∷ "public/" ∷ "index.html" ∷ "vite.config.ts"
    ∷ "tsconfig.json" ∷ []

unfoldable pub is_scaffold : String → String → String → Bool
unfolding lower upper has_text ends_with
is_scaffold package_id name objective =
    has_text "scaffold" (lower name)
    || ends_with (upper package_id) "-001"
    || has_text "initialize the project" (lower objective)
    || has_text "project directory" (lower objective)

unfoldable pub infer_scaffold_owned_paths : String → String → String → List String → List String
unfolding is_scaffold add_missing
infer_scaffold_owned_paths package_id name objective owned =
    if is_scaffold package_id name objective then add_missing root_files owned else owned
