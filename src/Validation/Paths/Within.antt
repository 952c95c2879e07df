-- ===== src/Validation/Paths/Within.antt =====
-- What it means that a path lies within a root: part by part.
use Prim.Native.Char.{Char, code, char}
use text.Mathlib.TextEquality.{starts_with_iff}
use text.Mathlib.TextLemmas.{cons-append, nil-append, append_assoc}
use mathlib.Core.List.{append-nil}
use railwarden.Base.{
  String, ◌<>◌, ◌==◌, eq_iff, starts_with, Bool, true, false, ◌||◌, List, [], ◌∷◌, ◌++◌, ◌≡◌, ◌≢◌,
  refl, sym, ap, ◌∙◌, contains, arith, Bool-cases, inl, inr, if◌then◌else◌, nat_eq,
}
use railwarden.Text.{split_slash, onto_first}
use railwarden.Validation.Paths.{normalize_repo_path, is_within, path_is_within}

-- The parts between the slashes of the normalized path.
abbrev pub parts : String → List String
parts path = split_slash (normalize_repo_path path)

onto_first-append :
    (c : Char) (xs ys : List String) → xs ≢ [] → onto_first c (xs ++ ys) ≡ onto_first c xs ++ ys
unfolding onto_first
onto_first-append c [] ys h = absurd (h refl)
onto_first-append c (x ∷ xs) ys h = refl

onto_first-ne-nil : (c : Char) (xs : List String) → onto_first c xs ≢ []
unfolding onto_first
onto_first-ne-nil c [] e = cc
onto_first-ne-nil c (x ∷ xs) e = cc

split_slash-ne-nil : (s : String) → split_slash s ≢ []
unfolding split_slash
split_slash-ne-nil String.[] e = cc
split_slash-ne-nil (String.◌∷◌ c s) e = elim (Bool-cases (nat_eq (code c) 47)) [
  | inl bar ↦ let e' : ("" ∷ split_slash s) ≡ [] = rw bar at e in cc
  | inr plain ↦
      let e' : onto_first c (split_slash s) ≡ [] = rw plain at e in
      onto_first-ne-nil c (split_slash s) e'
]

split_slash_cons :
    (c : Char) (s : String)
    → split_slash (String.◌∷◌ c s)
      ≡ (if nat_eq (code c) 47 then "" ∷ split_slash s else onto_first c (split_slash s))
unfolding split_slash
split_slash_cons c s = refl

is_within_tests :
    (p r : String)
    → is_within p r ≡ true
    → (starts_with p "/" ≡ false)
      × (contains (split_slash p) ".." ≡ false)
      × ((p == r || starts_with p (r <> "/")) ≡ true)
unfolding is_within
is_within_tests p r h = ground arith

-- The parts of two texts with a slash between are the parts of both.
split_slash-append : (a b : String) → split_slash (a <> ("/" <> b)) ≡ split_slash a ++ split_slash b
unfolding split_slash
split_slash-append String.[] b = ap split_slash (nil-append ("/" <> b)) ∙ slash_first b
  where
    slash_first : (b : String) → split_slash ("/" <> b) ≡ split_slash "" ++ split_slash b
    slash_first b =
        ap split_slash
          (cons-append (char 47 tt) String.[] b ∙ ap (String.◌∷◌ (char 47 tt)) (nil-append b))
        ∙ split_slash_cons (char 47 tt) b
split_slash-append (String.◌∷◌ c s) b =
    ap split_slash (cons-append c s ("/" <> b))
    ∙ split_slash_cons c (s <> ("/" <> b))
    ∙ rw (split_slash-append s b, split_slash_cons c s)
        (ground (arith, onto_first-append c (split_slash s) (split_slash b) (split_slash-ne-nil s)))

is_within_parts :
    (p r : String)
    → is_within p r ≡ true
    → (starts_with p "/" ≡ false)
      × (contains (split_slash p) ".." ≡ false)
      × ((rest : List String) × (split_slash p ≡ split_slash r ++ rest))
is_within_parts p r h =
    let (a, b, c) = is_within_tests p r h in
    elim (Bool-cases (p == r)) [
      | inl same ↦
          (a, b, ([], ap split_slash ((eq_iff p r).0 same) ∙ sym (append-nil (split_slash r))))
      | inr differ ↦
          let (t, e) = (starts_with_iff p (r <> "/")).0 (or_right (p == r) c differ) in
          (
            a,
            b,
            (split_slash t, ap split_slash (sym e ∙ append_assoc r "/" t) ∙ split_slash-append r t),
          )
    ]
  where
    or_right : {x : Bool} (y : Bool) → (y || x) ≡ true → y ≡ false → x ≡ true
    or_right y h e = rw e at h

-- A path that is within a root is not absolute and has no part `..`, and its parts begin with all
-- the parts of the root, after normalization.
pub path_is_within-parts :
    (path root : String)
    → path_is_within path root ≡ true
    → (starts_with (normalize_repo_path path) "/" ≡ false)
      × (contains (parts path) ".." ≡ false)
      × ((rest : List String) × (parts path ≡ parts root ++ rest))
unfolding path_is_within
path_is_within-parts path root h =
    is_within_parts (normalize_repo_path path) (normalize_repo_path root) h
