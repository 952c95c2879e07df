-- ===== src/Examples/Scheduler.antt =====
-- A graph of three packages: 3 needs 1 and 2, and 2 needs 1.
use railwarden.Base.{
  String, List, [], ◌∷◌, ◌≡◌, refl, ◌≢◌, ◌↔◌, ok, err, recursion, keys, lookup, sorted, contains,
  Nodup,
}
use railwarden.Config.{WorkPackage, new_package}
use railwarden.Scheduler.Dag.{Packages, validate_dag, topological}
use railwarden.Scheduler.Dag.Valid.{Known, Acyclic, validate_dag_iff, validate_dag-ne-recursion}
use railwarden.Scheduler.Dag.Order.{IsDependencyOrder, topological-order}

abbrev needs : String → List String → WorkPackage
needs id ids = record (new_package id id "") { dependencies = ids }

abbrev diamond : Packages
diamond =
    ("P3", needs "P3" ("P1" ∷ "P2" ∷ []))
    ∷ ("P1", needs "P1" [])
    ∷ ("P2", needs "P2" ("P1" ∷ []))
    ∷ []

abbrev cyclic : Packages
cyclic = ("P1", needs "P1" ("P2" ∷ [])) ∷ ("P2", needs "P2" ("P1" ∷ [])) ∷ []

diamond_valid : validate_dag diamond ≡ ok tt
unfolding validate_dag contains keys lookup
diamond_valid = refl

diamond_order : topological diamond ≡ ok ("P1" ∷ "P2" ∷ "P3" ∷ [])
unfolding topological contains keys lookup sorted
diamond_order = refl

diamond_NodupKeys : Nodup (keys diamond)
unfolding keys contains
diamond_NodupKeys = (refl, (refl, (refl, tt)))

validate_dag_iff_example : (validate_dag diamond ≡ ok tt) ↔ (Known diamond × Acyclic diamond)
validate_dag_iff_example = validate_dag_iff diamond diamond_NodupKeys

validate_dag-ne-recursion_example : validate_dag cyclic ≢ err recursion
validate_dag-ne-recursion_example = validate_dag-ne-recursion cyclic

topological-order_example :
    (ordered : List String) × (topological diamond ≡ ok ordered)
    × IsDependencyOrder diamond [] ordered
    × Nodup ordered
    × ((a : String) → contains ordered a ≡ contains (keys diamond) a)
topological-order_example = topological-order diamond diamond_valid
