-- ===== src/Worktrees/Reuse.antt =====
-- What `ensure_worktree` promises of the worktree that it returns.
use railwarden.Base.{
  String, ◌==◌, Bool, true, false, not, ◌&&◌, ok, ◌≡◌, refl, sym, ap, ◌∙◌, subst, ◌⊎◌, inl, inr,
  eq_iff, arith, true_ne_false,
}
use railwarden.Base.Exec.{pure, gets, refuse, run-eq-ok, gets-eq-ok, refuse-eq-ok}
use railwarden.Config.{FilePath}
use railwarden.World.{World, current_branch, tracked_is_clean, branch_exists, path_exists}
use railwarden.Worktrees.{
  Ensured, is_registered_worktree, registered_if, clear_unregistered, add_unless, add_command,
  reuse, create, ensure_from, ensure_worktree,
}

-- The registered worktree is on the branch, its tracked files are unchanged or the action is a
-- repair, and nothing was written.
abbrev pub Reused :
    (W : World)
    → (FilePath → FilePath)
    → FilePath
    → W.State
    → W.State
    → FilePath
    → String
    → String
    → Type 0
Reused W resolve repository s t workspace branch action =
    (t ≡ s)
    × (is_registered_worktree W resolve repository s workspace ≡ ok true)
    × (current_branch W s workspace ≡ ok branch)
    × ((tracked_is_clean W s workspace ≡ ok true) ⊎ (action ≡ "repair"))

-- The worktree is new, and the action is no repair.
abbrev pub Created : String → Ensured → Type 0
Created action ensured = ((action == "repair") ≡ false) × (ensured.operation ≡ "create")

clean_or_repair :
    (clean : Bool) (action : String)
    → (not clean && not (action == "repair")) ≡ false
    → (clean ≡ true) ⊎ (action ≡ "repair")
clean_or_repair true action h = inl refl
clean_or_repair false action h = inr (ground (arith, eq_iff action "repair"))

module _ (W : World) (resolve : FilePath → FilePath) (repository : FilePath) where
  open W use {State}

  reuse-Reused :
      (workspace : FilePath) (branch action : String) (s t : State) (ensured : Ensured)
      → reuse W resolve repository workspace branch action s ≡ (ok ensured, t)
      → (ensured.operation ≡ "reuse")
        × (t ≡ s)
        × (current_branch W s workspace ≡ ok branch)
        × ((tracked_is_clean W s workspace ≡ ok true) ⊎ (action ≡ "repair"))
  unfolding reuse
  reuse-Reused workspace branch action s t ensured e =
      let (actual, s1, found, e1) =
        run-eq-ok (gets (λ s. current_branch W s workspace)) _ s t ensured e in
      let (_, s2, equal, e2) = run-eq-ok (refuse (not (actual == branch)) _) _ s1 t ensured e1 in
      let (clean, s3, asked, e3) =
        run-eq-ok (gets (λ s. tracked_is_clean W s workspace)) _ s2 t ensured e2 in
      let (_, s4, dirty, e4) =
        run-eq-ok (refuse (not clean && not (action == "repair")) _) _ s3 t ensured e3 in
      let (on_branch, same1) = gets-eq-ok (λ s. current_branch W s workspace) s s1 actual found in
      let (equals, same2) = refuse-eq-ok (not (actual == branch)) _ s1 s2 _ equal in
      let (is_clean, same3) = gets-eq-ok (λ s. tracked_is_clean W s workspace) s2 s3 clean asked in
      let (kept, same4) = refuse-eq-ok (not clean && not (action == "repair")) _ s3 s4 _ dirty in
      let named : actual ≡ branch = ground (arith, eq_iff actual branch) in
      let here : s2 ≡ s = sym (same1 ∙ same2) in
      (
        sym (ap (λ w. w.operation) (last_ok _ ensured s4 t e4).0),
        sym (same1 ∙ same2 ∙ same3 ∙ same4 ∙ (last_ok _ ensured s4 t e4).1),
        on_branch ∙ ap ok named,
        elim (clean_or_repair clean action kept) [
          | inl same ↦
              inl
                (subst (λ u. tracked_is_clean W u workspace ≡ ok true) here (is_clean ∙ ap ok same))
          | inr repair ↦ inr repair
        ],
      )
    where
      last_ok : (w v : Ensured) (u t : State) → pure w u ≡ (ok v, t) → (w ≡ v) × (u ≡ t)
      last_ok w v u t h = (cc, cc)

  -- A new worktree is not for a repair.
  create-Created :
      (integration_branch : String) (workspace : FilePath) (branch action : String) (dry_run : Bool)
      (s t : State) (ensured : Ensured)
      → create W resolve repository integration_branch workspace branch action dry_run s
        ≡ (ok ensured, t)
      → Created action ensured
  unfolding create
  create-Created integration_branch workspace branch action dry_run s t ensured e =
      let (_, s1, passed, e1) = run-eq-ok (refuse (action == "repair") _) _ s t ensured e in
      let (_, s2, _, e2) =
        run-eq-ok
          (add_unless W resolve repository dry_run (
            add_command W resolve repository integration_branch workspace branch
              (branch_exists W s1 repository branch)))
          _ s1 t ensured e1 in
      (
        (refuse-eq-ok (action == "repair") _ s s1 _ passed).0,
        sym (ap (λ w. w.operation) (last_ok _ ensured s2 t e2)),
      )
    where
      last_ok : (w v : Ensured) (u t : State) → pure w u ≡ (ok v, t) → w ≡ v
      last_ok w v u t h = cc

  ensure_from-cases :
      (integration_branch : String) (workspace : FilePath) (branch action : String)
      (dry_run exists registered : Bool) (s t : State) (ensured : Ensured)
      → (exists ≡ false → registered ≡ false)
      → registered_if W resolve repository exists s workspace ≡ ok registered
      → ensure_from W resolve repository integration_branch workspace branch action dry_run exists
          registered s
        ≡ (ok ensured, t)
      → Reused W resolve repository s t workspace branch action ⊎ Created action ensured
  unfolding ensure_from
  ensure_from-cases integration_branch workspace branch action dry_run true true s t ensured h found
        e =
      let (_, same, on_branch, clean) = reuse-Reused workspace branch action s t ensured e in
      inl (same, found, on_branch, clean)
  ensure_from-cases integration_branch workspace branch action dry_run false true s t ensured h
        found e =
      absurd (true_ne_false (h refl))
  ensure_from-cases integration_branch workspace branch action dry_run true false s t ensured h
        found e =
      let (_, u, _, made) =
        run-eq-ok (clear_unregistered W resolve repository workspace) _ s t ensured e in
      inr (create-Created integration_branch workspace branch action dry_run u t ensured made)
  ensure_from-cases integration_branch workspace branch action dry_run false false s t ensured h
        found e =
      inr (create-Created integration_branch workspace branch action dry_run s t ensured e)

  registered_exists :
      (exists registered : Bool) (s : State) (workspace : FilePath)
      → registered_if W resolve repository exists s workspace ≡ ok registered
      → exists ≡ false
      → registered ≡ false
  registered_exists true registered s workspace found h = cc
  registered_exists false registered s workspace found h = cc

  -- Whenever `ensure_worktree` returns: either the worktree is registered and on the branch, it has
  -- no tracked changes or the action is "repair", and nothing was written; or the worktree is
  -- reported as created, and the action is not "repair".
  pub ensure_worktree-Reused :
      (integration_branch : String) (workspace : FilePath) (branch action : String) (dry_run : Bool)
      (s t : State) (ensured : Ensured)
      → ensure_worktree W resolve repository integration_branch workspace branch action dry_run s
        ≡ (ok ensured, t)
      → Reused W resolve repository s t workspace branch action ⊎ Created action ensured
  unfolding ensure_worktree
  ensure_worktree-Reused integration_branch workspace branch action dry_run s t ensured e =
      let exists : Bool = path_exists W s workspace in
      let (registered, u, found, rest) =
        run-eq-ok (gets (λ u. registered_if W resolve repository exists u workspace))
          (λ registered.
            ensure_from W resolve repository integration_branch workspace branch action dry_run
              exists registered)
          s t ensured e in
      let (is_registered, same) =
        gets-eq-ok (λ u. registered_if W resolve repository exists u workspace) s u registered
          found in
      ensure_from-cases integration_branch workspace branch action dry_run exists registered s t
        ensured (registered_exists exists registered s workspace is_registered) is_registered
        (subst
          (λ v.
            ensure_from W resolve repository integration_branch workspace branch action dry_run
              exists registered v
            ≡ (ok ensured, t))
          (sym same) rest)
