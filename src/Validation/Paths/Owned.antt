-- ===== src/Validation/Paths/Owned.antt =====
-- What `validate_owned_paths` accepts.
use railwarden.Base.{
  String, Bool, true, false, not, List, [], ◌∷◌, map, ok, ◌≡◌, refl, ◌≢◌, ◌↔◌, ◌>>◌, seq-eq-ok,
  contains, Within, All, arith, Bool-cases, inl, inr, contains_cases, contains_head, contains_tail,
  not_member, subst, sym, true_ne_false, ◌∙◌,
}
use railwarden.Validation.Paths.{
  normalize_repo_path, within_any, select, refuse_listed, refuse_unowned, refuse_mismatch, lacking,
  validate_owned_paths,
}

abbrev pub normal : List String → List String
normal = map normalize_repo_path

-- Each changed file lies in an owned path and in no forbidden one, and the reported files are the
-- changed ones, up to the spelling of paths.
pub record Owned (changed reported owned forbidden : List String) : Type 0 where
  pub inside : All (λ path. within_any owned path ≡ true) changed
  pub outside : All (λ path. within_any forbidden path ≡ false) changed
  pub reported_all : Within (normal changed) (normal reported)
  pub reported_only : Within (normal reported) (normal changed)

select-eq-nil :
    (test : String → Bool) (xs : List String) → (select test xs ≡ []) ↔ All (λ x. test x ≡ false) xs
unfolding select
select-eq-nil test [] = (λ _. tt, λ _. refl)
select-eq-nil test (x ∷ xs) = ground (arith, select-eq-nil test xs)

lacking-eq-nil : (ys xs : List String) → (lacking ys xs ≡ []) ↔ Within xs ys
unfolding select
lacking-eq-nil ys [] = (λ _ a h. absurd (not_member a h), λ _. refl)
lacking-eq-nil ys (x ∷ xs) = elim (Bool-cases (contains ys x)) [
  | inl has ↦ (
    λ e a h. elim (contains_cases a x xs h) [
      | inl here ↦ subst (λ b. contains ys b ≡ true) (sym here) has
      | inr later ↦ (lacking-eq-nil ys xs).0 (lacking_kept has e) a later
    ],
    λ w. lacking_skipped has ((lacking-eq-nil ys xs).1 (λ a h. w a (contains_tail a x xs h))),
  )
  | inr lacks ↦ (
    λ e. absurd (lacking_listed lacks e),
    λ w. absurd (true_ne_false (sym (w x (contains_head x xs)) ∙ lacks)),
  )
]
  where
    lacking_kept : contains ys x ≡ true → lacking ys (x ∷ xs) ≡ [] → lacking ys xs ≡ []
    lacking_kept has e = rw has at e

    lacking_skipped : contains ys x ≡ true → lacking ys xs ≡ [] → lacking ys (x ∷ xs) ≡ []
    lacking_skipped has e = rw has e

    lacking_listed : contains ys x ≡ false → lacking ys (x ∷ xs) ≢ []
    lacking_listed lacks e = let e' : (x ∷ lacking ys xs) ≡ [] = rw lacks at e in cc

refuse_listed-eq-ok :
    (message : String) (xs : List String) → (refuse_listed message xs ≡ ok tt) ↔ (xs ≡ [])
refuse_listed-eq-ok message [] = (λ _. refl, λ _. refl)
refuse_listed-eq-ok message (x ∷ xs) = (λ e. absurd (cc), λ e. absurd (cc))

refuse_mismatch-eq-ok :
    (xs ys : List String) → (refuse_mismatch xs ys ≡ ok tt) ↔ ((xs ≡ []) × (ys ≡ []))
refuse_mismatch-eq-ok [] [] = (λ _. (refl, refl), λ _. refl)
refuse_mismatch-eq-ok [] (y ∷ ys) = (λ e. absurd (cc), λ e. let e' = e.1 in absurd (cc))
refuse_mismatch-eq-ok (x ∷ xs) ys = (λ e. absurd (cc), λ e. let e' = e.0 in absurd (cc))

All-not :
    (test : String → Bool) (xs : List String)
    → All (λ x. not (test x) ≡ false) xs ↔ All (λ x. test x ≡ true) xs
All-not test [] = (λ _. tt, λ _. tt)
All-not test (x ∷ xs) = ground (arith, All-not test xs)

refuse_unowned-eq-ok : (owned : List String) → (refuse_unowned owned ≡ ok tt) ↔ (owned ≢ [])
refuse_unowned-eq-ok [] = (λ e. absurd (cc), λ ne. absurd (ne refl))
refuse_unowned-eq-ok (x ∷ xs) = (λ _ e. cc, λ _. refl)

module _ (changed reported owned forbidden : List String) where
  abbrev unexpected : List String
  unexpected = select (λ path. not (within_any owned path)) changed

  abbrev banned : List String
  banned = select (within_any forbidden) changed

  abbrev missing : List String
  missing = lacking (normal reported) (normal changed)

  abbrev extra : List String
  extra = lacking (normal changed) (normal reported)

  -- The four checks in a row.
  checks :
      (validate_owned_paths changed reported owned forbidden ≡ ok tt)
      ↔ ((owned ≢ []) × (unexpected ≡ []) × (banned ≡ []) × (missing ≡ []) × (extra ≡ []))
  unfolding validate_owned_paths
  checks =
      let outside = refuse_listed "Changed files outside owned paths: " unexpected in
      let forbidden_files = refuse_listed "Forbidden paths changed: " banned in
      let mismatch = refuse_mismatch missing extra in
      (
        λ e.
            let (a, r) =
              (seq-eq-ok (refuse_unowned owned) (outside >> (forbidden_files >> mismatch))).0 e in
            let (b, r') = (seq-eq-ok outside (forbidden_files >> mismatch)).0 r in
            let (c, d) = (seq-eq-ok forbidden_files mismatch).0 r' in
            (
              (refuse_unowned-eq-ok owned).0 a,
              (refuse_listed-eq-ok "Changed files outside owned paths: " unexpected).0 b,
              (refuse_listed-eq-ok "Forbidden paths changed: " banned).0 c,
              ((refuse_mismatch-eq-ok missing extra).0 d).0,
              ((refuse_mismatch-eq-ok missing extra).0 d).1,
            ),
        λ (a, b, c, d, e).
            (seq-eq-ok (refuse_unowned owned) (outside >> (forbidden_files >> mismatch))).1 (
              (refuse_unowned-eq-ok owned).1 a,
              (seq-eq-ok outside (forbidden_files >> mismatch)).1 (
                (refuse_listed-eq-ok "Changed files outside owned paths: " unexpected).1 b,
                (seq-eq-ok forbidden_files mismatch).1 (
                  (refuse_listed-eq-ok "Forbidden paths changed: " banned).1 c,
                  (refuse_mismatch-eq-ok missing extra).1 (d, e),
                ),
              ),
            ),
      )

  -- `validate_owned_paths` returns without an exception exactly if the package has owned paths,
  -- every changed file lies in one of them, none lies in a forbidden path, and the reported files
  -- are the changed files, both as sets of normalized paths.
  pub validate_owned_paths_iff :
      (validate_owned_paths changed reported owned forbidden ≡ ok tt)
      ↔ ((owned ≢ []) × Owned changed reported owned forbidden)
  validate_owned_paths_iff = (
    λ e.
        let (a, b, c, d, f) = checks.0 e in
        (
          a,
          record {
            inside =
                (All-not (within_any owned) changed).0
                  ((select-eq-nil (λ path. not (within_any owned path)) changed).0 b);
            outside = (select-eq-nil (within_any forbidden) changed).0 c;
            reported_all = (lacking-eq-nil (normal reported) (normal changed)).0 d;
            reported_only = (lacking-eq-nil (normal changed) (normal reported)).0 f;
          },
        ),
    λ (a, o). checks.1 (
      a,
      (select-eq-nil (λ path. not (within_any owned path)) changed).1
          ((All-not (within_any owned) changed).1 o.inside),
      (select-eq-nil (within_any forbidden) changed).1 o.outside,
      (lacking-eq-nil (normal reported) (normal changed)).1 o.reported_all,
      (lacking-eq-nil (normal changed) (normal reported)).1 o.reported_only,
    ),
  )
