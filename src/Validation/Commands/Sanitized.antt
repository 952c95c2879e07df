-- ===== src/Validation/Commands/Sanitized.antt =====
-- What a planner's validation commands become.
use railwarden.Base.{
  ℕ, suc, ◌+◌, String, ◌==◌, eq_iff, Bool, true, false, Bool-cases, ◌||◌, Option, none, some, List,
  [], ◌∷◌, ◌++◌, length, All, Result, ok, err, Message, value_error, configuration, ◌>>=◌, ◌>>◌,
  raise_if, ◌≡◌, ◌≢◌, refl, sym, ap, subst, ◌∙◌, inl, inr, arith,
}
use railwarden.Value.{Value, str, num, flag, null, obj, arr, Items, nil, cons, Fields, Show, get_or}
use railwarden.Text.{strip, has_text}
use railwarden.Validation.Shell.{
  Lexer, Mode, between, in_word, escaped, in_quotes, escaped_in, finish, step, lex, split,
}
use railwarden.Validation.Commands.{
  has_metachar, same_argv, seen_before, not_empty, unless_configuration, parse_text,
  parse_validation_argv, first_candidate, planner_validation_argv, planner_source, command_dict,
  sanitize_each, sanitize_planner_validation_commands, argv_in, argv_of, compound_shell_separators,
  heads,
}

same_argv_refl : (a : List String) → same_argv a a ≡ true
same_argv_refl [] = refl
same_argv_refl (x ∷ a) = ground (arith, same_argv_refl a, eq_iff x x)

abbrev Distinct : List (List String) → Type 0
Distinct [] = Unit
Distinct (argv ∷ argvs) = All (λ other. argv ≢ other) argvs × Distinct argvs

All_snoc :
    (P : List String → Type 0) (xs : List (List String)) {x : List String}
    → All P xs
    → P x
    → All P (xs ++ (x ∷ []))
All_snoc P [] _ p = (p, tt)
All_snoc P (y ∷ xs) (q, qs) p = (q, All_snoc P xs qs p)

Distinct-snoc :
    (seen : List (List String)) (argv : List String)
    → Distinct seen
    → seen_before seen argv ≡ false
    → Distinct (seen ++ (argv ∷ []))
unfolding seen_before
Distinct-snoc [] argv _ _ = (tt, tt)
Distinct-snoc (other ∷ seen) argv (apart, distinct) new = (
  All_snoc _ seen apart λ same.
      let e = subst (λ a. same_argv other a ≡ true) same (same_argv_refl other) in
      absurd (ground (arith)),
  Distinct-snoc seen argv distinct (ground (arith)),
)

-- What a step may give: a value that has the property, or the error of `shlex.split`.
abbrev pub Lexed {ℓ} : {A : Type ℓ} → (A → Type 0) → Result A → Type 0
Lexed P (ok a) = P a
Lexed P (err raised) = (message : Message) × (raised ≡ value_error message)

finish-Lexed : (mode : Mode) (l : Lexer) → Lexed (λ argv. Unit {0}) (finish mode l)
unfolding finish
finish-Lexed between l = tt
finish-Lexed in_word l = tt
finish-Lexed escaped l = (_, refl)
finish-Lexed (in_quotes q) l = (_, refl)
finish-Lexed (escaped_in q) l = (_, refl)

lex-Lexed : (text : String) (l : Lexer) → Lexed (λ argv. Unit {0}) (lex text l)
unfolding lex
lex-Lexed String.[] l = finish-Lexed l.mode l
lex-Lexed (String.◌∷◌ c text) l = lex-Lexed text (step l.mode c l)

split-Lexed : (text : String) → Lexed (λ argv. Unit {0}) (split text)
unfolding split
split-Lexed text = lex-Lexed text _

-- An argument list that is there is not empty.
abbrev Present : Option (List String) → Type 0
Present none = Unit
Present (some argv) = argv ≢ []

module _ (show : Show) where
  abbrev numbered : ℕ → List (List String) → List Fields
  numbered n [] = []
  numbered n (argv ∷ argvs) = command_dict show n argv ∷ numbered (suc n) argvs

  numbered_snoc :
      (n : ℕ) (argvs : List (List String)) (argv : List String)
      → numbered n (argvs ++ (argv ∷ []))
        ≡ numbered n argvs ++ (command_dict show (length argvs + n) argv ∷ [])
  numbered_snoc n [] argv =
      let start : n ≡ 0 + n = omega arith in ap (λ k. command_dict show k argv ∷ []) start
  numbered_snoc n (a ∷ argvs) argv =
      let shift : length argvs + suc n ≡ suc (length argvs) + n = omega arith in
      ap (λ rest. command_dict show n a ∷ rest)
        (numbered_snoc (suc n) argvs argv
          ∙ ap (λ k. numbered (suc n) argvs ++ (command_dict show k argv ∷ [])) shift)

  length-numbered : (n : ℕ) (argvs : List (List String)) → length (numbered n argvs) ≡ length argvs
  length-numbered n [] = refl
  length-numbered n (a ∷ argvs) = ap suc (length-numbered (suc n) argvs)

  -- The commands are numbered from 1, each runs in the package's root, and their argument lists
  -- are distinct, and not empty.
  pub record Sanitized (commands : List Fields) : Type 0 where
    pub argvs : List (List String)
    pub named : commands ≡ numbered 1 argvs
    pub distinct : Distinct argvs
    pub present : All (λ argv. argv ≢ []) argvs

  abbrev nothing : Sanitized []
  nothing = record { argvs = []; named = refl; distinct = tt; present = tt }

  Present-not_empty :
      (source : String) (argv : List String)
      → Lexed Present (unless_configuration (not_empty source argv))
  Present-not_empty source [] = tt
  Present-not_empty source (x ∷ argv) = λ same. cc

  Present-gated :
      (source : String) (background compound : Bool) (m n : Message) (r : Result (List String))
      → Lexed (λ argv. Unit {0}) r
      → Lexed Present (
          unless_configuration (
            (raise_if background (configuration m) >> (raise_if compound (configuration n) >> r))
            >>= not_empty source))
  Present-gated source true compound m n r lexed = tt
  Present-gated source false true m n r lexed = tt
  Present-gated source false false m n (ok argv) lexed = Present-not_empty source argv
  Present-gated source false false m n (err raised) (message, e) = rw e (message, refl)

  -- A planner's text is refused, or it is split, which may fail.
  Present-parse :
      (source : String) (raw : Value)
      → Lexed Present (unless_configuration (parse_validation_argv show source raw))
  unfolding parse_validation_argv parse_text
  Present-parse source (arr items) = Present-not_empty source (argv_of show items)
  Present-parse source (str raw) =
      Present-gated source (has_text "&;" (strip raw) || has_text "& ;" (strip raw))
        (has_metachar (strip raw))
        (source ∷ " uses shell background syntax; use structured argv" ∷ [])
        (source ∷ " contains shell metacharacters; use structured argv" ∷ []) (split (strip raw))
        (split-Lexed (strip raw))
  Present-parse source (num n) = tt
  Present-parse source (flag b) = tt
  Present-parse source null = tt
  Present-parse source (obj fields) = tt

  Present-candidate :
      (first later : Result (Option (List String)))
      → Lexed Present first
      → Lexed Present later
      → Lexed Present (first >>= λ found. elim found [ some argv ↦ ok (some argv) | none ↦ later ])
  Present-candidate (err raised) later p q = p
  Present-candidate (ok none) later p q = q
  Present-candidate (ok (some argv)) later p q = p

  Present-first : (candidates : List String) → Lexed Present (first_candidate show candidates)
  unfolding first_candidate
  Present-first [] = tt
  Present-first (candidate ∷ candidates) =
      Present-candidate _ _ (Present-parse planner_source (str candidate))
        (Present-first candidates)

  Present-planner : (raw : Value) → Lexed Present (planner_validation_argv show raw)
  unfolding planner_validation_argv
  Present-planner (obj raw) =
      Present-parse planner_source (argv_in (get_or "command" (get_or "argv" null raw) raw))
  Present-planner (arr items) = Present-parse planner_source (arr items)
  Present-planner (str raw) = elim (Bool-cases (strip raw == "")) [
    | inl blank ↦ rw blank tt
    | inr there ↦
        rw there (Present-first (strip raw ∷ heads show compound_shell_separators (strip raw)))
  ]
  Present-planner (num n) = tt
  Present-planner (flag b) = tt
  Present-planner null = tt

  abbrev Numbered : List (List String) → List Fields → Type 0
  Numbered seen commands =
      (commands ≡ numbered 1 seen) × Distinct seen × All (λ argv. argv ≢ []) seen

  Numbered-snoc :
      (seen : List (List String)) (commands : List Fields) (argv : List String)
      → Numbered seen commands
      → seen_before seen argv ≡ false
      → argv ≢ []
      → Numbered
          (seen ++ (argv ∷ []))
          (commands ++ (command_dict show (length commands + 1) argv ∷ []))
  Numbered-snoc seen commands argv (named, distinct, present) new there =
      let count : length commands ≡ length seen = ap length named ∙ length-numbered 1 seen in
      (
        rw (count, named) (sym (numbered_snoc 1 seen argv)),
        Distinct-snoc seen argv distinct new,
        All_snoc _ seen present there,
      )

  fresh_or_seen :
      (b : Bool) (skipped kept : Result (List Fields))
      → Lexed Sanitized skipped
      → (b ≡ false → Lexed Sanitized kept)
      → Lexed Sanitized (elim b [ true ↦ skipped | false ↦ kept ])
  fresh_or_seen true skipped kept p q = p
  fresh_or_seen false skipped kept p q = q refl

  taken :
      (r : Result (Option (List String))) (seen : List (List String))
      (skipped : Result (List Fields)) (kept : List String → Result (List Fields))
      → Lexed Present r
      → Lexed Sanitized skipped
      → ((argv : List String)
          → seen_before seen argv ≡ false
          → argv ≢ []
          → Lexed Sanitized (kept argv))
      → Lexed Sanitized (
          r >>= λ found. elim found [
            | none ↦ skipped
            | some argv ↦ elim (seen_before seen argv) [ true ↦ skipped | false ↦ kept argv ]
          ])
  taken (err raised) seen skipped kept p q k = p
  taken (ok none) seen skipped kept p q k = q
  taken (ok (some argv)) seen skipped kept p q k =
      fresh_or_seen (seen_before seen argv) skipped (kept argv) q λ new. k argv new p

  sanitize_each-Sanitized :
      (items : Items) (seen : List (List String)) (commands : List Fields)
      → Numbered seen commands
      → Lexed Sanitized (sanitize_each show items seen commands)
  unfolding sanitize_each
  sanitize_each-Sanitized nil seen commands (named, distinct, present) = record {
    argvs = seen;
    named = named;
    distinct = distinct;
    present = present;
  }
  sanitize_each-Sanitized (cons raw items) seen commands so_far =
      taken (planner_validation_argv show raw) seen (sanitize_each show items seen commands)
        (λ argv.
          sanitize_each show items (seen ++ (argv ∷ []))
            (commands ++ (command_dict show (length commands + 1) argv ∷ [])))
        (Present-planner raw) (sanitize_each-Sanitized items seen commands so_far)
        (λ argv new there.
          sanitize_each-Sanitized items (seen ++ (argv ∷ []))
            (commands ++ (command_dict show (length commands + 1) argv ∷ []))
            (Numbered-snoc seen commands argv so_far new there))

  -- For whatever a planner gives, either the commands are numbered from 1 and their argument
  -- lists are distinct and not empty, or the error is the ValueError of `shlex.split`; an error
  -- of the configuration never leaves.
  pub sanitize_planner_validation_commands-Sanitized :
      (commands : Value) → Lexed Sanitized (sanitize_planner_validation_commands show commands)
  unfolding sanitize_planner_validation_commands
  sanitize_planner_validation_commands-Sanitized (arr items) =
      sanitize_each-Sanitized items [] [] (refl, tt, tt)
  sanitize_planner_validation_commands-Sanitized (str raw) = nothing
  sanitize_planner_validation_commands-Sanitized (num n) = nothing
  sanitize_planner_validation_commands-Sanitized (flag b) = nothing
  sanitize_planner_validation_commands-Sanitized null = nothing
  sanitize_planner_validation_commands-Sanitized (obj fields) = nothing
