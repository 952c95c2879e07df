-- ===== src/Providers/Health/Classes.antt =====
-- The classes of failures.
use railwarden.Base.{
  String, Bool, true, false, ◌||◌, some, List, [], ◌∷◌, contains, ◌≡◌, inl, inr, Bool-cases, arith,
}
use railwarden.Text.{has_text, lower}
use railwarden.Base.{inl, inr, ◌≡◌, refl, false, ap, Option, none}
use railwarden.Providers.Health.{
  FailureClass, first_kinds, later_kinds, transient_failure_kinds, human_failure_kinds, match_kind,
  names_result_path, classify_normalized, classify_failure, class_from, match_pattern,
}

-- The text contains one of the patterns.
abbrev pub contains_any : String → List String → Bool
contains_any normalized [] = false
contains_any normalized (pattern ∷ patterns) =
    has_text pattern normalized || contains_any normalized patterns

match_pattern_found :
    (normalized : String) (patterns : List String)
    → contains_any normalized patterns ≡ true
    → (pattern : String) × (match_pattern normalized patterns ≡ some pattern)
unfolding match_pattern
match_pattern_found normalized [] h = cc
match_pattern_found normalized (pattern ∷ patterns) h =
    elim (Bool-cases (has_text pattern normalized)) [
      | inl here ↦ (pattern, rw here)
      | inr absent ↦
          let (later, e) = match_pattern_found normalized patterns (ground arith) in
          (later, rw absent e)
    ]

-- The flags are those of the kind.
abbrev pub Flagged : FailureClass → Type 0
Flagged (kind, transient, human, _) =
    (transient ≡ contains transient_failure_kinds kind)
    × (human ≡ contains human_failure_kinds kind)

class_from-Flagged :
    (first : Option (String × String)) (hinted : Bool) (later : Option (String × String))
    → Flagged (class_from first hinted later)
unfolding class_from contains
class_from-Flagged (some (kind, pattern)) hinted later = (refl, refl)
class_from-Flagged none true later = (refl, refl)
class_from-Flagged none false (some (kind, pattern)) = (refl, refl)
class_from-Flagged none false none = (refl, refl)

match_kind_found :
    (normalized kind pattern : String) (patterns : List String)
    (kinds : List (String × List String))
    → match_pattern normalized patterns ≡ some pattern
    → match_kind normalized ((kind, patterns) ∷ kinds) ≡ some (kind, pattern)
unfolding match_kind
match_kind_found normalized kind pattern patterns kinds e = rw (e, match_kind) refl

abbrev pub quota_patterns : List String
quota_patterns =
    "quota exceeded" ∷ "quota exhausted" ∷ "usage limit" ∷ "resource exhausted" ∷ "out of credits"
    ∷ []

abbrev rate_kinds : List (String × List String)
rate_kinds =
    ("rate_limited", "rate limit" ∷ "too many requests" ∷ "http 429" ∷ "retry-after" ∷ []) ∷ []

-- The transient and the human flag of `classify_failure` are those of the kind, for every text; and
-- a text that contains a pattern of an exhausted quota, in whatever case, is of that kind,
-- whatever else it contains.
pub classify_failure-Flagged :
    (text : String)
    → Flagged (classify_failure text)
      × (contains_any (lower text) quota_patterns ≡ true
          → (classify_failure text).0 ≡ "quota_exhausted")
unfolding classify_failure classify_normalized class_from
classify_failure-Flagged text = (
  class_from-Flagged (match_kind (lower text) first_kinds) (names_result_path (lower text))
      (match_kind (lower text) later_kinds),
  λ h.
      let (pattern, found) = match_pattern_found (lower text) quota_patterns h in
      ap
        (λ o.
          (class_from o (names_result_path (lower text)) (match_kind (lower text) later_kinds)).0)
        (match_kind_found (lower text) "quota_exhausted" pattern quota_patterns rate_kinds found),
)
