-- ===== src/Engine/Results/Completed.antt =====
-- What a normalized result has.
use railwarden.Base.{
  String, ◌==◌, eq_iff, Bool, true, false, Bool-cases, List, [], ◌∷◌, Result, ok, All, ◌≡◌, refl,
  ap, subst, ◌∙◌, inl, inr, bind-eq-ok, ◌>>=◌, Option, none, some, if◌then◌else◌, arith,
}
use railwarden.Config.{ProjectConfig}
use railwarden.Value.{Value, str, null, arr, nil, Fields, end, field, get, put}
use railwarden.Value.Laws.{has, get-put_ne, get-put_self}
use railwarden.World.{World}
use railwarden.Engine.Outside.{Outside}
use railwarden.Engine.Results.{
  Source, set_default, status_completed, is_completed_status, default_commit, default_files,
  completed, path_if,
}

has-put : (k j : String) (v : Value) (d : Fields) → has j d ≡ true → has j (put k v d) ≡ true
unfolding has put
has-put k j v end h = absurd (cc)
has-put k j v (field i w d) h = ground (arith, has-put k j v d, eq_iff i k, eq_iff i j)

has-put_self : (k : String) (v : Value) (d : Fields) → has k (put k v d) ≡ true
unfolding has put
has-put_self k v end = ground (arith, eq_iff k k)
has-put_self k v (field i w d) = ground (arith, has-put_self k v d, eq_iff i k)

has-set_default :
    (k j : String) (v : Value) (d : Fields) → has j d ≡ true → has j (set_default k v d) ≡ true
unfolding set_default
has-set_default k j v d h = elim (Bool-cases (has k d)) [
  | inl there ↦ rw there h
  | inr absent ↦ rw absent (has-put k j v d h)
]

has-set_default_self : (k : String) (v : Value) (d : Fields) → has k (set_default k v d) ≡ true
unfolding set_default
has-set_default_self k v d = elim (Bool-cases (has k d)) [
  | inl there ↦ rw there there
  | inr absent ↦ rw absent (has-put_self k v d)
]

get-set_default_ne :
    (k j : String) (v : Value) (d : Fields) → (k == j) ≡ false → get j (set_default k v d) ≡ get j d
unfolding set_default
get-set_default_ne k j v d ne = elim (Bool-cases (has k d)) [
  | inl there ↦ rw there
  | inr absent ↦ rw absent (get-put_ne k j v d ne)
]

abbrev required_keys : List String
required_keys =
    "schema_version" ∷ "task_id" ∷ "worker" ∷ "model" ∷ "summary" ∷ "workspace" ∷ "branch"
    ∷ "commit_hash" ∷ "changed_files" ∷ "tests" ∷ "blockers" ∷ "evidence" ∷ "normalized_by"
    ∷ "source_result_path" ∷ []

abbrev claims_success : Option Value → Bool
claims_success none = false
claims_success (some v) = is_completed_status v "success"

-- Every field that the controller reads is there, and the old word for completion is gone.
abbrev pub Complete : Fields → Type 0
Complete result =
    All (λ key. has key result ≡ true) required_keys
    × (claims_success (get "status" result) ≡ false)

claims-status_completed :
    (payload : Fields) → claims_success (get "status" (status_completed payload)) ≡ false
unfolding status_completed
claims-status_completed payload = by_status (get "status" payload) refl
  where
    by_status :
        (v : Option Value)
        → get "status" payload ≡ v
        → claims_success (
            get "status" (
              if is_completed_status
                (elim (get "status" payload) [ none ↦ null | some w ↦ w ])
                "success"
              then put "status" (str "completed") payload
              else payload))
          ≡ false
    by_status none e = rw e (rw e refl)
    by_status (some v) e = elim (Bool-cases (is_completed_status v "success")) [
      | inl old ↦ rw (e, old, get-put_self "status" (str "completed") payload)
      | inr new ↦ rw (e, new) (rw e new)
    ]

ruleset kept_keys = (has-put, has-put_self, has-set_default, has-set_default_self)

-- The fields that are named before the commit, and the whole dict.
abbrev named : Source → Fields → Fields
named source payload = set_default "branch" (str source.branch) (
    set_default "workspace" (str source.workspace) (
      set_default "summary" (str "") (
        set_default "model" (str source.model) (
          set_default "worker" (str source.provider) (
            set_default "task_id" (str source.task_id)
              (set_default "schema_version" (str "1.0.0") (status_completed payload)))))))

abbrev filled : Source → Bool → Value → Value → Fields → Fields
filled source reported commit files payload =
    put "source_result_path" (path_if reported source.source_path) (
      put "normalized_by" (str "railwarden") (
        set_default "evidence" (arr nil) (
          set_default "blockers" (arr nil) (
            set_default "tests" (arr nil) (
              set_default "changed_files" files
                (set_default "commit_hash" commit (named source payload)))))))

-- The status passes through every other key.
get-filled :
    (source : Source) (reported : Bool) (commit files : Value) (payload : Fields)
    → get "status" (filled source reported commit files payload)
      ≡ get "status" (status_completed payload)
get-filled source reported commit files payload =
    get-put_ne "source_result_path" "status" _ _ refl
    ∙ get-put_ne "normalized_by" "status" _ _ refl
    ∙ get-set_default_ne "evidence" "status" _ _ refl
    ∙ get-set_default_ne "blockers" "status" _ _ refl
    ∙ get-set_default_ne "tests" "status" _ _ refl
    ∙ get-set_default_ne "changed_files" "status" _ _ refl
    ∙ get-set_default_ne "commit_hash" "status" _ _ refl
    ∙ get-set_default_ne "branch" "status" _ _ refl
    ∙ get-set_default_ne "workspace" "status" _ _ refl
    ∙ get-set_default_ne "summary" "status" _ _ refl
    ∙ get-set_default_ne "model" "status" _ _ refl
    ∙ get-set_default_ne "worker" "status" _ _ refl
    ∙ get-set_default_ne "task_id" "status" _ _ refl
    ∙ get-set_default_ne "schema_version" "status" _ _ refl

filled-Complete :
    (source : Source) (reported : Bool) (commit files : Value) (payload : Fields)
    → Complete (filled source reported commit files payload)
filled-Complete source reported commit files payload = (
  (
    search kept_keys depth 20,
    (
      search kept_keys depth 20,
      (
        search kept_keys depth 20,
        (
          search kept_keys depth 20,
          (
            search kept_keys depth 20,
            (
              search kept_keys depth 20,
              (
                search kept_keys depth 20,
                (
                  search kept_keys depth 20,
                  (
                    search kept_keys depth 20,
                    (
                      search kept_keys depth 20,
                      (
                        search kept_keys depth 20,
                        (
                          search kept_keys depth 20,
                          (search kept_keys depth 20, (search kept_keys depth 20, tt)),
                        ),
                      ),
                    ),
                  ),
                ),
              ),
            ),
          ),
        ),
      ),
    ),
  ),
  ap claims_success (get-filled source reported commit files payload)
      ∙ claims-status_completed payload,
)

module _ (W : World) (O : Outside) (config : ProjectConfig) where
  open W use {State}

  ok-eq : (a b : Fields) → ◌≡◌ {A = Result Fields} (ok a) (ok b) → a ≡ b
  ok-eq a b h = cc

  -- Whenever a result is normalized, whether a worker wrote it or it stands for clean committed
  -- work, it has every field that a result must have, but for the status, and its status is not
  -- the old word "success".
  pub completed-Complete :
      (s : State) (source : Source) (reported : Bool) (payload result : Fields)
      → completed W O config s source reported payload ≡ ok result
      → Complete result
  unfolding completed
  completed-Complete s source reported payload result e =
      let after_files : Value → Value → Result Fields =
        λ commit files. ok (filled source reported commit files payload) in
      let after_commit : Value → Result Fields = λ commit.
        default_files W O config s source.workspace
          (set_default "commit_hash" commit (named source payload))
        >>= after_files commit in
      let (commit, _, e1) =
        bind-eq-ok (default_commit W O config s source.workspace) after_commit e in
      let (files, _, e2) =
        bind-eq-ok
          (default_files W O config s source.workspace
            (set_default "commit_hash" commit (named source payload)))
          (after_files commit) e1 in
      subst Complete (ok-eq (filled source reported commit files payload) result e2)
        (filled-Complete source reported commit files payload)
