-- ===== src/Text.antt =====
-- The methods of Python's `str` that the code uses, by recursion on the text. `lower` maps the
-- letters A to Z and leaves all other characters; white space and line ends are those of ASCII.
use Prim.Native.Char.{Char, code, char}
use text.Mathlib.Text.{find?}
use railwarden.Base.{
  ℕ, zero, suc, String, ◌==◌, Bool, true, false, ◌&&◌, ◌||◌, Option, none, some, List, [], ◌∷◌,
  nat_eq, leb, if◌then◌else◌,
}

is_space : Char → Bool
is_space c =
    nat_eq (code c) 32 || leb 9 (code c) && leb (code c) 13 || leb 28 (code c) && leb (code c) 31

unfoldable pub lstrip : String → String
unfolding is_space
lstrip String.[] = ""
lstrip (String.◌∷◌ c s) = let rest = lstrip s in if is_space c then rest else String.◌∷◌ c s

unfoldable pub rstrip : String → String
unfolding is_space
rstrip String.[] = ""
rstrip (String.◌∷◌ c s) =
    let rest = rstrip s in if is_space c && rest == "" then "" else String.◌∷◌ c rest

unfoldable pub strip : String → String
unfolding lstrip rstrip
strip s = lstrip (rstrip s)

translate : Char → String → String → Char
translate c String.[] _ = c
translate c (String.◌∷◌ u us) String.[] = c
translate c (String.◌∷◌ u us) (String.◌∷◌ l ls) =
    let rest = translate c us ls in if nat_eq (code c) (code u) then l else rest

unfoldable pub lower : String → String
unfolding translate
lower String.[] = ""
lower (String.◌∷◌ c s) =
    String.◌∷◌ (translate c "ABCDEFGHIJKLMNOPQRSTUVWXYZ" "abcdefghijklmnopqrstuvwxyz") (lower s)

-- `s.replace(c, "")` for a character
unfoldable pub without : ℕ → String → String
without n String.[] = ""
without n (String.◌∷◌ c s) =
    let rest = without n s in if nat_eq (code c) n then rest else String.◌∷◌ c rest

-- `needle in s`
unfoldable pub has_text : String → String → Bool
has_text needle s = elim (find? s needle) [ none ↦ false | some _ ↦ true ]

-- The lines of a text: the current line first, reversed in `line`.
lines_from : String → String → List String
lines_from line String.[] = if line == "" then [] else line ∷ []
lines_from line (String.◌∷◌ c s) =
    let next = lines_from "" s in
    let more = lines_from (snoc line c) s in if nat_eq (code c) 10 then line ∷ next else more
  where
    snoc : String → Char → String
    snoc String.[] c = String.◌∷◌ c String.[]
    snoc (String.◌∷◌ d t) c = String.◌∷◌ d (snoc t c)

-- `s.splitlines()`, for lines that end in a line feed
unfoldable pub splitlines : String → List String
unfolding lines_from
splitlines s = lines_from "" s

-- `[line for line in lines if line]`
unfoldable pub nonempty : List String → List String
nonempty [] = []
nonempty (x ∷ xs) = let rest = nonempty xs in if x == "" then rest else x ∷ rest

abbrev slash : Char
slash = char 47 tt

-- `s.replace("\\", "/")`
unfoldable pub slashed : String → String
slashed String.[] = ""
slashed (String.◌∷◌ c s) = String.◌∷◌ (if nat_eq (code c) 92 then slash else c) (slashed s)

-- `s.rstrip("/")`
unfoldable pub rstrip_slash : String → String
rstrip_slash String.[] = ""
rstrip_slash (String.◌∷◌ c s) =
    let rest = rstrip_slash s in if nat_eq (code c) 47 && rest == "" then "" else String.◌∷◌ c rest

-- `while s.startswith("./"): s = s[2:]`
unfoldable pub drop_dots : String → String
drop_dots (String.◌∷◌ c (String.◌∷◌ d s)) =
    let rest = drop_dots s in
    if nat_eq (code c) 46 && nat_eq (code d) 47 then rest else String.◌∷◌ c (String.◌∷◌ d s)
drop_dots s = s

-- The character joins the first of the parts.
unfoldable pub onto_first : Char → List String → List String
onto_first c [] = String.◌∷◌ c String.[] ∷ []
onto_first c (x ∷ xs) = String.◌∷◌ c x ∷ xs

-- `s.split("/")`
unfoldable pub split_slash : String → List String
unfolding onto_first
split_slash String.[] = "" ∷ []
split_slash (String.◌∷◌ c s) =
    let rest = split_slash s in if nat_eq (code c) 47 then "" ∷ rest else onto_first c rest

-- `s[:n]`
unfoldable pub shorten : ℕ → String → String
shorten zero s = ""
shorten (suc n) String.[] = ""
shorten (suc n) (String.◌∷◌ c s) = String.◌∷◌ c (shorten n s)

is_word : Char → Bool
is_word c =
    leb 97 (code c) && leb (code c) 122
    || leb 65 (code c) && leb (code c) 90
    || leb 48 (code c) && leb (code c) 57

-- A run of characters that are neither letters nor digits becomes one dash, and a run at either
-- end is dropped. `dash` says whether such a run stands before a text that is not yet empty.
slug_from : Bool → Bool → String → String
unfolding is_word
slug_from started dash String.[] = ""
slug_from started dash (String.◌∷◌ c s) =
    let word = String.◌∷◌ c (slug_from true false s) in
    let gap = slug_from started true s in
    if is_word c then if started && dash then String.◌∷◌ (char 45 tt) word else word else gap

-- `re.sub(r"[^a-zA-Z0-9]+", "-", name.lower()).strip("-")`
unfoldable pub slug : String → String
unfolding slug_from lower
slug name = slug_from false false (lower name)

-- `upper` maps the letters a to z.
unfoldable pub upper : String → String
unfolding translate
upper String.[] = ""
upper (String.◌∷◌ c s) =
    String.◌∷◌ (translate c "abcdefghijklmnopqrstuvwxyz" "ABCDEFGHIJKLMNOPQRSTUVWXYZ") (upper s)

-- `s.endswith(suffix)`
unfoldable pub ends_with : String → String → Bool
ends_with String.[] suffix = suffix == ""
ends_with (String.◌∷◌ c s) suffix =
    let later = ends_with s suffix in String.◌∷◌ c s == suffix || later

-- `s.partition(c)` for a character: the text before it, whether it is there, and the text after it.
unfoldable pub partition : ℕ → String → String × Bool × String
partition n String.[] = ("", false, "")
partition n (String.◌∷◌ c s) =
    let (before, found, after) = partition n s in
    if nat_eq (code c) n then ("", true, s) else (String.◌∷◌ c before, found, after)

-- `s.replace(c, r)` for two characters
unfoldable pub replace_char : ℕ → Char → String → String
replace_char n r String.[] = ""
replace_char n r (String.◌∷◌ c s) =
    String.◌∷◌ (if nat_eq (code c) n then r else c) (replace_char n r s)

-- `s.replace("--", "-")`: the pairs from the left
unfoldable pub single_dashes : String → String
single_dashes (String.◌∷◌ c (String.◌∷◌ d s)) =
    let joined = String.◌∷◌ c (single_dashes s) in
    let kept = String.◌∷◌ c (single_dashes (String.◌∷◌ d s)) in
    if nat_eq (code c) 45 && nat_eq (code d) 45 then joined else kept
single_dashes s = s

-- The text before the last occurrence of a character; `none` if it does not occur.
unfoldable pub before_last : ℕ → String → Option String
before_last n String.[] = none
before_last n (String.◌∷◌ c s) = elim (before_last n s) [
  | some before ↦ some (String.◌∷◌ c before)
  | none ↦ if nat_eq (code c) n then some "" else none
]

-- The text after the last occurrence of a character; `none` if it does not occur.
unfoldable pub after_last : ℕ → String → Option String
after_last n String.[] = none
after_last n (String.◌∷◌ c s) = elim (after_last n s) [
  | some after ↦ some after
  | none ↦ if nat_eq (code c) n then some s else none
]

abbrev text_or : Option String → String → String
text_or none default = default
text_or (some s) default = s

-- `path.parent`
unfoldable pub parent : String → String
unfolding before_last
parent path = text_or (before_last 47 path) "."

-- `path.stem`
unfoldable pub stem : String → String
unfolding before_last after_last
stem path = let name = text_or (after_last 47 path) path in text_or (before_last 46 name) name
