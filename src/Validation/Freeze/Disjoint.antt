-- ===== src/Validation/Freeze/Disjoint.antt =====
-- Which texts stand among the owned paths of the packages once they are frozen.
use railwarden.Base.{
  String, ◌==◌, eq_iff, Bool, true, false, not, ◌&&◌, Bool-cases, Option, none, some, List, [], ◌∷◌,
  Dict, lookup, insert, lookup-insert, keys, keys-lookup, sorted, contains, contains-sorted, Result,
  Error, ok, err, ◌>>=◌, ◌>>◌, raise_if, bind-eq-ok, seq-eq-ok, ◌≡◌, refl, sym, ap, subst, ◌∙◌, inl,
  inr, arith, if◌then◌else◌,
}
use railwarden.Value.{arr, Items, nil, cons, Fields, get_or, Show, to_str}
use railwarden.Validation.WorkerResult.{to_texts}
use railwarden.Validation.Freeze.{
  list_items, package_in, owned_once, register, check_refs, freeze_package, freeze_each,
  package_map, non_empty_list, validate_packages_for_freeze, validate_package_commands,
  validate_dag_from_dicts,
}

-- Whoever owned a path owns it still.
abbrev Keeps : Dict String → Dict String → Type 0
Keeps before after =
    (path owner : String) → lookup path before ≡ some owner → lookup path after ≡ some owner

owned_once-Keeps :
    (id path : String) (o : Option String) (registry registered : Dict String)
    → lookup path registry ≡ o
    → owned_once id path o registry ≡ ok registered
    → (lookup path registered ≡ some id) × Keeps registry registered
owned_once-Keeps id path o registry registered at h =
    let (same, free) = settled o at h in
    (
      ap (lookup path) same
          ∙ lookup-insert path path id registry
          ∙ ground (arith, eq_iff path path),
      λ p owner held.
          ap (lookup p) same ∙ lookup-insert path p id registry ∙ by_path p owner held free,
    )
  where
    settled :
        (o : Option String)
        → lookup path registry ≡ o
        → owned_once id path o registry ≡ ok registered
        → (registered ≡ insert path id registry)
          × ((owner : String) → lookup path registry ≡ some owner → owner ≡ id)
    settled none at h = (cc, λ owner e. cc)
    settled (some other) at h = elim (Bool-cases (other == id)) [
      | inl same ↦ (ground (arith), λ owner e. let e' = (eq_iff other id).0 same in cc)
      | inr differ ↦ ground (arith)
    ]

    by_path :
        (p owner : String)
        → lookup p registry ≡ some owner
        → ((owner : String) → lookup path registry ≡ some owner → owner ≡ id)
        → (if path == p then some id else lookup p registry) ≡ some owner
    by_path p owner held free = elim (Bool-cases (path == p)) [
      | inl same ↦
          let e = free owner (ap (λ q. lookup q registry) ((eq_iff path p).0 same) ∙ held) in
          rw same (ap some (sym e))
      | inr differ ↦ rw differ held
    ]

-- What the checks before and after do not stop is the registry that the step between them gives.
through :
    (a b : Bool) (e f : Error) (c : Result (Unit {0})) (r : Result (Dict String))
    (d : Result (Unit {0})) (y : Dict String)
    → (raise_if a e >> (raise_if b f >> (c >> (r >>= λ x. d >> ok x)))) ≡ ok y
    → r ≡ ok y
through true b e f c r d y h = cc
through false true e f c r d y h = cc
through false false e f (err raised) r d y h = cc
through false false e f (ok _) (err raised) d y h = cc
through false false e f (ok _) (ok x) (err raised) y h = cc
through false false e f (ok _) (ok x) (ok _) y h = cc

module _ (show : Show) where
  register-Keeps :
      (id : String) (paths : Items) (registry registered : Dict String)
      → register show id paths registry ≡ ok registered
      → ((path : String)
          → contains (to_texts show paths) path ≡ true
          → lookup path registered ≡ some id)
        × Keeps registry registered
  unfolding register to_texts contains
  register-Keeps id nil registry registered h =
      let e : registry ≡ registered = cc in
      (λ path there. cc, λ path owner held. subst (λ r. lookup path r ≡ some owner) e held)
  register-Keeps id (cons raw paths) registry registered h =
      let (next, now, rest) =
        bind-eq-ok (owned_once id (to_str show raw) (lookup (to_str show raw) registry) registry)
          (register show id paths) h in
      let (here, kept) = owned_once-Keeps id (to_str show raw) _ registry next refl now in
      let (later, kept') = register-Keeps id paths next registered rest in
      (
        λ path there. elim (Bool-cases (path == to_str show raw)) [
          | inl same ↦
              subst (λ p. lookup p registered ≡ some id) (sym ((eq_iff _ _).0 same))
                (kept' (to_str show raw) id here)
          | inr differ ↦ later path (ground (arith))
        ],
        λ path owner held. kept' path owner (kept path owner held),
      )

  -- The paths that a package owns.
  abbrev pub owned_by : Fields → List String
  owned_by fields = to_texts show (list_items (get_or "owned_paths" (arr nil) fields))

  module _ (exists : String → Bool) (require_context_refs : Bool) where
    freeze_package-register :
        (id : String) (fields : Fields) (registry registered : Dict String)
        → freeze_package show exists require_context_refs id fields registry ≡ ok registered
        → register show id (list_items (get_or "owned_paths" (arr nil) fields)) registry
          ≡ ok registered
    unfolding freeze_package
    freeze_package-register id fields registry registered h =
        through (not (non_empty_list (get_or "owned_paths" (arr nil) fields)))
          (require_context_refs && not (non_empty_list (get_or "context_refs" (arr nil) fields))) _
          _
          (check_refs show exists require_context_refs id
            (list_items (get_or "context_refs" (arr nil) fields)))
          (register show id (list_items (get_or "owned_paths" (arr nil) fields)) registry)
          (validate_package_commands show id fields) registered h

    freeze_each-Keeps :
        (named : Dict Fields) (ids : List String) (registry registered : Dict String)
        → freeze_each show exists require_context_refs named ids registry ≡ ok registered
        → ((id path : String)
            → contains ids id ≡ true
            → contains (owned_by (package_in (lookup id named))) path ≡ true
            → lookup path registered ≡ some id)
          × Keeps registry registered
    unfolding freeze_each contains
    freeze_each-Keeps named [] registry registered h =
        let e : registry ≡ registered = cc in
        (
          λ id path there owned. cc,
          λ path owner held. subst (λ r. lookup path r ≡ some owner) e held,
        )
    freeze_each-Keeps named (i ∷ ids) registry registered h =
        let fields = package_in (lookup i named) in
        let (next, now, rest) =
          bind-eq-ok (freeze_package show exists require_context_refs i fields registry)
            (freeze_each show exists require_context_refs named ids) h in
        let (own, kept) =
          register-Keeps i (list_items (get_or "owned_paths" (arr nil) fields)) registry next
            (freeze_package-register i fields registry next now) in
        let (later, kept') = freeze_each-Keeps named ids next registered rest in
        (
          λ id path there owned. elim (Bool-cases (id == i)) [
            | inl same ↦
                let e = (eq_iff id i).0 same in
                let owned' =
                  subst (λ j. contains (owned_by (package_in (lookup j named))) path ≡ true) e
                    owned in
                subst (λ j. lookup path registered ≡ some j) (sym e)
                  (kept' path i (own path owned'))
            | inr differ ↦ later id path (ground (arith)) owned
          ],
          λ path owner held. kept' path owner (kept path owner held),
        )

    freeze-registry :
        (packages : Items)
        → validate_packages_for_freeze show exists require_context_refs packages ≡ ok tt
        → (registry : Dict String) × (freeze_each show exists require_context_refs
              (package_map show packages [])
              (sorted (keys (package_map show packages [])))
              []
            ≡ ok registry)
    unfolding validate_packages_for_freeze
    freeze-registry nil h = cc
    freeze-registry (cons item items) h =
        let (_, frozen) =
          (seq-eq-ok (validate_dag_from_dicts show (package_map show (cons item items) [])) _).0
            h in
        let (registry, e, _) =
          bind-eq-ok
            (freeze_each show exists require_context_refs (package_map show (cons item items) [])
              (sorted (keys (package_map show (cons item items) []))) [])
            (λ r. ok tt) frozen in
        (registry, e)

    -- Once a list of packages passes the checks, a text that stands among the owned paths of a
    -- package does not stand, as the same text, among those of a package of another id.
    pub validate_packages_for_freeze-disjoint :
        (packages : Items) (first second path : String) (a b : Fields)
        → validate_packages_for_freeze show exists require_context_refs packages ≡ ok tt
        → lookup first (package_map show packages []) ≡ some a
        → lookup second (package_map show packages []) ≡ some b
        → (first == second) ≡ false
        → contains (owned_by a) path ≡ true
        → contains (owned_by b) path ≡ false
    validate_packages_for_freeze-disjoint packages first second path a b h at_first at_second apart
          pa =
        let (registry, frozen) = freeze-registry packages h in
        let (owner, _) =
          freeze_each-Keeps (package_map show packages [])
            (sorted (keys (package_map show packages []))) [] registry frozen in
        let named = package_map show packages [] in
        let listed : (id : String) (c : Fields)
            → lookup id named ≡ some c
            → contains (sorted (keys named)) id ≡ true =
          λ id c e. contains-sorted (keys named) id ∙ keys-lookup named id c e in
        let one = owner first path (listed first a at_first) (rw at_first pa) in
        elim (Bool-cases (contains (owned_by b) path)) [
          | inl both ↦
              let two = owner second path (listed second b at_second) (rw at_second both) in
              let same : first ≡ second = cc (one, two) in
              absurd (ground (arith, (eq_iff first second).1 same))
          | inr free ↦ free
        ]
