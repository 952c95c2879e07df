-- ===== src/Integration/Rollback.antt =====
-- What a failed validation leaves behind.
use railwarden.Base.{
  ℕ, zero, suc, ◌||◌, arith, contains, contains_head, contains_tail, All, All-sorted_by, sorted,
  String, ◌==◌, Bool, true, false, Option, none, some, List, [], ◌∷◌, Result, ok, err, Error, ◌≢◌,
  railwarden as general, configuration, git, validation, provider, value_error, runtime_error,
  key_error, os_error, type_error, recursion, ◌≡◌, refl, sym, ap, ◌∙◌, ◌⊎◌, inl, inr, if◌then◌else◌,
}
use railwarden.Base.Exec.{pure, throw, and_then}
use railwarden.Config.{FilePath, ProjectConfig, ValidationCommand}
use railwarden.World.{World, Reply, PathKind, file, directory, absent, under, head, untracked_files}
use railwarden.Validation.Runner.{
  ValidationResult, no_outputs, declared_by, new_files, normalized_outputs, removed_as, removable,
  remove_new, run_validation_suite, remove_item, remove_items, cleanup_new_untracked,
}
use railwarden.Integration.{
  Candidate, repository, rolled_back, roll_back, judged, caught, validate_or_roll_back,
}

zero_or_not : (n : ℕ) → (n ≡ 0) ⊎ (n ≢ 0)
zero_or_not zero = inl refl
zero_or_not (suc n) = inr λ e. omega (arith, e)

All-kept :
    (P : String → Type 0) (b c : Bool) (item : String) (rest : List String)
    → P item
    → All P rest
    → All P (if b then rest else if c then item ∷ rest else rest)
All-kept P true c item rest p ps = ps
All-kept P false true item rest p ps = (p, ps)
All-kept P false false item rest p ps = ps

All-new_files :
    (P : String → Type 0) (before outputs items : List String)
    → ((item : String) → contains items item ≡ true → P item)
    → All P (new_files before outputs items)
unfolding new_files
All-new_files P before outputs [] listed = tt
All-new_files P before outputs (item ∷ items) listed =
    let rest = new_files before outputs items in
    All-kept P (contains before item || contains rest item)
      (no_outputs outputs || declared_by outputs item) item rest
      (listed item (contains_head item items))
      (All-new_files P before outputs items λ i there. listed i (contains_tail i item items there))

-- What `cleanup_new_untracked` removes was listed.
All-removable :
    (P : String → Type 0) (before : List String) (outputs : List FilePath) (after : List String)
    → ((item : String) → contains after item ≡ true → P item)
    → All P (removable before outputs after)
unfolding removable sorted
All-removable P before outputs after listed =
    All-sorted_by P _ _
      (All-sorted_by P _ _ (All-new_files P before (normalized_outputs outputs) after listed))

abbrev Kept : Type 0
Kept = List ValidationResult × List String

module _ (W : World) (config : ProjectConfig) where
  open W use {State, unlink, rmdir}

  -- HEAD of the repository.
  abbrev pub head_of : State → Result String
  head_of s = head W s (repository W config) "HEAD"

  -- `git reset --hard`
  abbrev pub reset : String → State → State × Reply
  reset revision s = W.command s (repository W config) ("reset" ∷ "--hard" ∷ revision ∷ [])

  -- A path that git listed as untracked in some state.
  abbrev pub Listed : String → Type 0
  Listed item =
      (s : State) × (items : List String) × (untracked_files W s (repository W config) ≡ ok items)
      × (contains items item ≡ true)

  -- HEAD is the old one, or the reset in the state that the validation left has failed.
  abbrev pub Restored : String → State → State → Type 0
  Restored before_head u t = (head_of t ≡ ok before_head) ⊎ ((reset before_head u).1.returncode ≢ 0)

  module _
      (unlink_head : (u : State) (item : String)
        → Listed item
        → head_of (unlink u (under (repository W config) item)) ≡ head_of u)
      (rmdir_head : (u t : State) (item : String)
        → Listed item
        → rmdir u (under (repository W config) item) ≡ some t
        → head_of t ≡ head_of u) where
    remove_item-head :
        (item : String) (s : State)
        → Listed item
        → head_of (remove_item W (repository W config) item s).0 ≡ head_of s
    unfolding remove_item
    remove_item-head item s listed =
        by_kind (W.kind s (under (repository W config) item))
          (rmdir s (under (repository W config) item)) refl
      where
        by_kind :
            (k : PathKind) (o : Option State)
            → rmdir s (under (repository W config) item) ≡ o
            → head_of (removed_as W (repository W config) k o item s).0 ≡ head_of s
        by_kind file o e = unlink_head s item listed
        by_kind directory (some t) e = rmdir_head s t item listed e
        by_kind directory none e = refl
        by_kind absent o e = refl

    remove_items-head :
        (items : List String) (s : State)
        → All Listed items
        → head_of (remove_items W (repository W config) items s).0 ≡ head_of s
    unfolding remove_items
    remove_items-head [] s _ = refl
    remove_items-head (item ∷ items) s (listed, more) =
        remove_items-head items (remove_item W (repository W config) item s).0 more
        ∙ remove_item-head item s listed

    cleanup-head :
        (before : List String) (outputs : List FilePath) (s : State)
        → head_of (cleanup_new_untracked W (repository W config) before outputs s).1 ≡ head_of s
    unfolding cleanup_new_untracked remove_new
    cleanup-head before outputs s = from_listing (untracked_files W s (repository W config)) refl
      where
        from_listing :
            (r : Result (List String))
            → untracked_files W s (repository W config) ≡ r
            → head_of (and_then r (remove_new W (repository W config) before outputs) s).1
              ≡ head_of s
        from_listing (ok after) e =
            remove_items-head (removable before outputs after) s
              (All-removable Listed before outputs after λ item there. (s, after, e, there))
        from_listing (err raised) e = refl

    module _ (before_head : String)
        (reset_head : (s : State)
          → (reset before_head s).1.returncode ≡ 0
          → head_of (reset before_head s).0 ≡ ok before_head) where
      roll_back-head :
          (candidate : Candidate) (before reason : List String) (s : State)
          → (reset before_head s).1.returncode ≡ 0
          → head_of (roll_back W config {A = Kept} candidate before_head before reason s).1
            ≡ ok before_head
      unfolding roll_back
      roll_back-head candidate before reason s succeeded =
          let (u, _) = reset before_head s in
          let (r, v) = cleanup_new_untracked W (repository W config) before [] u in
          ap head_of (thrown r v) ∙ cleanup-head before [] u ∙ reset_head s succeeded
        where
          thrown :
              (r : Result (List String)) (v : State)
              → (and_then {B = Kept} r
                  (λ removed. throw (rolled_back W config candidate before_head removed reason))
                  v).1
                ≡ v
          thrown (ok removed) v = refl
          thrown (err e) v = refl

      -- If `reset --hard` to the old head moves HEAD there whenever it succeeds, and the removal of
      -- a path that git lists as untracked leaves HEAD, then, whenever the step that validates a
      -- merge raises an exception, HEAD is the old head, or the reset in the state that the
      -- validation left has failed, or the exception is no ValidationError, and it and the state
      -- are those of `run_validation_suite`.
      pub validate_or_roll_back-head :
          (candidate : Candidate) (commands : List ValidationCommand) (before : List String)
          (s t : State) (e : Error)
          → validate_or_roll_back W config candidate commands before_head before s ≡ (err e, t)
          → Restored before_head (run_validation_suite W (repository W config) commands s).1 t
            ⊎ ((run_validation_suite W (repository W config) commands s ≡ (err e, t))
                × ((m : List String) → e ≢ validation m))
      unfolding validate_or_roll_back caught judged
      validate_or_roll_back-head candidate commands before s t e h =
          from_suite (run_validation_suite W (repository W config) commands s) refl h
        where
          rolled :
              (reason : List String) (u : State)
              → roll_back W config {A = Kept} candidate before_head before reason u ≡ (err e, t)
              → Restored before_head u t
          rolled reason u h = elim (zero_or_not (reset before_head u).1.returncode) [
            | inl succeeded ↦ inl (
                ap head_of (sym (ap (λ r. r.1) h))
                ∙ roll_back-head candidate before reason u succeeded)
            | inr failed ↦ inr failed
          ]

          from_status :
              (results : List ValidationResult) (removed : List String) (u : State) (passed : Bool)
              → (if passed
                    then pure {A = Kept} (results, removed)
                    else roll_back W config candidate before_head before [])
                  u
                ≡ (err e, t)
              → Restored before_head u t
          from_status results removed u true h = cc
          from_status results removed u false h = rolled [] u h

          same_end :
              (raised : Error) (u : State)
              → run_validation_suite W (repository W config) commands s ≡ (err raised, u)
              → ◌≡◌ {A = Result Kept × State} (err raised, u) (err e, t)
              → run_validation_suite W (repository W config) commands s ≡ (err e, t)
          same_end raised u ran h =
              let same : raised ≡ e = cc in
              let here : u ≡ t = cc in ran ∙ ap (λ q. (err q, u)) same ∙ ap (λ v. (err e, v)) here

          from_suite :
              (r : Result (String × List ValidationResult × List String) × State)
              → run_validation_suite W (repository W config) commands s ≡ r
              → caught W config candidate before_head before r.0 r.1 ≡ (err e, t)
              → Restored before_head r.1 t
                ⊎ ((run_validation_suite W (repository W config) commands s ≡ (err e, t))
                    × ((m : List String) → e ≢ validation m))
          from_suite (ok (status, results, removed), u) ran h =
              inl (from_status results removed u (status == "passed") h)
          from_suite (err (validation m), u) ran h = inl (rolled (": " ∷ m) u h)
          from_suite (err (general m), u) ran h = inr (same_end _ u ran h, λ n d. cc)
          from_suite (err (configuration m), u) ran h = inr (same_end _ u ran h, λ n d. cc)
          from_suite (err (git m), u) ran h = inr (same_end _ u ran h, λ n d. cc)
          from_suite (err (provider m), u) ran h = inr (same_end _ u ran h, λ n d. cc)
          from_suite (err (value_error m), u) ran h = inr (same_end _ u ran h, λ n d. cc)
          from_suite (err (runtime_error m), u) ran h = inr (same_end _ u ran h, λ n d. cc)
          from_suite (err (key_error m), u) ran h = inr (same_end _ u ran h, λ n d. cc)
          from_suite (err (os_error m), u) ran h = inr (same_end _ u ran h, λ n d. cc)
          from_suite (err (type_error m), u) ran h = inr (same_end _ u ran h, λ n d. cc)
          from_suite (err recursion, u) ran h = inr (same_end _ u ran h, λ n d. cc)
