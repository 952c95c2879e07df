-- ===== src/Scheduler/Dag.antt =====
-- scheduler/dag.py: validation of the dependency graph, and a dependency order of the packages.
-- `packages` is the dict of work packages by their id. The two nested `visit` functions recur
-- along the dependencies; they take fuel, and `recursion` says that it ran out. A set is a list,
-- the newest member first. `visiting` is an argument: `visit` takes its own id out again before
-- it returns, so the set is for the caller what it was.
pub mod Loop
pub mod Visit
pub mod Settled
pub mod Valid
pub mod Order
use railwarden.Base.{
  ℕ, zero, suc, ◌+◌, String, Bool, true, false, ◌==◌, Option, none, some, List, [], ◌∷◌, ◌++◌, map,
  Result, ok, err, Error, configuration, key_error, recursion, ◌>>=◌, ◌>>◌, Dict, lookup, keys,
  contains, sorted, length, if◌then◌else◌,
}
use railwarden.Config.{WorkPackage}

abbrev pub Packages : Type 0
Packages = Dict WorkPackage

-- `packages[package_id].dependencies`
pub dependencies_of : Packages → String → Result (List String)
dependencies_of packages package_id = elim (lookup package_id packages) [
  | none ↦ err (key_error (package_id ∷ []))
  | some found ↦ ok found.dependencies
]

-- `for dependency in ...: visit(dependency)`, with the state that the visits thread.
pub each :
    (String → List String → Result (List String)) → List String → List String → Result (List String)
each visit [] visited = ok visited
each visit (x ∷ xs) visited = visit x visited >>= λ visited'. each visit xs visited'

-- The members of the first list that the second lacks, each once: `set(xs) - known`.
pub minus : List String → List String → List String
minus [] known = []
minus (x ∷ xs) known =
    let rest = minus xs known in
    if contains known x then rest else if contains rest x then rest else x ∷ rest

-- The first loop of `validate_dag`, over the values of the dict.
pub check_known : List String → Packages → Result (Unit {0})
check_known known [] = ok tt
check_known known ((_, found) ∷ rest) = elim (minus found.dependencies known) [
  | [] ↦ check_known known rest
  | x ∷ xs ↦
      err (configuration (found.package_id ∷ " has unknown dependencies: " ∷ sorted (x ∷ xs)))
]

module _ (packages : Packages) where
  -- `visit` of `validate_dag`. The result is the new `visited`.
  pub visit : ℕ → List String → String → List String → Result (List String)
  visit zero visiting package_id visited = err recursion
  visit (suc fuel) visiting package_id visited =
      let inner = dependencies_of packages package_id >>= λ dependencies.
      each (visit fuel (package_id ∷ visiting)) dependencies visited >>= λ visited'.
      ok (package_id ∷ visited') in
      if contains visiting package_id
      then err (configuration ("Dependency cycle detected at " ∷ package_id ∷ []))
      else if contains visited package_id
      then ok visited
      else inner

  -- `visit` of `topological`. `visited` and `ordered` have the same members: the list of both.
  pub arrange : ℕ → String → List String → Result (List String)
  arrange zero package_id ordered = err recursion
  arrange (suc fuel) package_id ordered =
      let inner = dependencies_of packages package_id >>= λ dependencies.
      each (arrange fuel) dependencies ordered >>= λ ordered'. ok (ordered' ++ (package_id ∷ [])) in
      if contains ordered package_id then ok ordered else inner

  -- The calls nest no deeper than there are packages.
  pub depth : ℕ
  depth = length packages + 1

  unfoldable pub validate_dag : Result (Unit {0})
  unfolding visit depth check_known each minus dependencies_of
  validate_dag =
      check_known (keys packages) packages
      >> (each (visit depth []) (keys packages) [] >>= λ visited. ok tt)

  unfoldable pub topological : Result (List String)
  unfolding arrange depth each validate_dag
  topological = validate_dag >> each (arrange depth) (sorted (keys packages)) []
