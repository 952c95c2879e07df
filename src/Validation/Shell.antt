-- ===== src/Validation/Shell.antt =====
-- `shlex.split` of Python's library, which validation/commands.py calls: the words of a shell
-- command, by one step of the lexer for each character.
use Prim.Native.Char.{Char, code}
use railwarden.Base.{
  String, ◌<>◌, ◌==◌, Bool, true, false, not, ◌&&◌, ◌||◌, List, [], ◌∷◌, ◌++◌, Result, ok, err,
  value_error, nat_eq, if◌then◌else◌,
}

-- Where the lexer stands: between two words, in a word, between two quotes, or behind a backslash
-- in a word or between two quotes.
pub data Mode : Type 0 where
  between in_word escaped : Mode
  in_quotes escaped_in : Char → Mode

pub record Lexer : Type 0 where
  pub mode : Mode
  pub quoted : Bool
  pub token : String
  pub words : List String

abbrev letter : Char → String
letter c = String.◌∷◌ c String.[]

is_white : Char → Bool
is_white c = nat_eq (code c) 32 || nat_eq (code c) 9 || nat_eq (code c) 13 || nat_eq (code c) 10

is_escape : Char → Bool
is_escape c = nat_eq (code c) 92

is_double : Char → Bool
is_double c = nat_eq (code c) 34

is_quote : Char → Bool
unfolding is_double
is_quote c = is_double c || nat_eq (code c) 39

extended : Lexer → String → Mode → Lexer
extended l text mode = record l { token = l.token <> text; mode = mode }

-- The words with the one that ends here. An empty one counts if it was quoted.
abbrev ended : Lexer → List String
ended l = if l.quoted || not (l.token == "") then l.words ++ (l.token ∷ []) else l.words

pub step : Mode → Char → Lexer → Lexer
unfolding is_white is_escape is_double is_quote extended
step between c l =
    if is_white c
    then l
    else if is_escape c
    then record l { mode = escaped }
    else if is_quote c
    then record l { mode = in_quotes c }
    else extended l (letter c) in_word
step in_word c l =
    if is_white c
    then record { mode = between; quoted = false; token = ""; words = ended l }
    else if is_quote c
    then record l { mode = in_quotes c }
    else if is_escape c
    then record l { mode = escaped }
    else extended l (letter c) in_word
step escaped c l = extended l (letter c) in_word
step (in_quotes q) c l =
    if nat_eq (code c) (code q)
    then record l { mode = in_word; quoted = true }
    else if is_escape c && is_double q
    then record l { mode = escaped_in q; quoted = true }
    else record (extended l (letter c) (in_quotes q)) { quoted = true }
step (escaped_in q) c l =
    let kept = if not (is_escape c) && not (nat_eq (code c) (code q)) then "\\" else "" in
    extended l (kept <> letter c) (in_quotes q)

unfoldable pub finish : Mode → Lexer → Result (List String)
finish between l = ok (ended l)
finish in_word l = ok (ended l)
finish escaped l = err (value_error ("No escaped character" ∷ []))
finish (in_quotes q) l = err (value_error ("No closing quotation" ∷ []))
finish (escaped_in q) l = err (value_error ("No escaped character" ∷ []))

unfoldable pub lex : String → Lexer → Result (List String)
unfolding finish step
lex String.[] l = finish l.mode l
lex (String.◌∷◌ c text) l = lex text (step l.mode c l)

-- `shlex.split(text)`
unfoldable pub split : String → Result (List String)
unfolding lex
split text = lex text (record { mode = between; quoted = false; token = ""; words = [] })
