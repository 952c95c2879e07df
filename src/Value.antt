-- ===== src/Value.antt =====
-- JSON values, as `json.loads` gives them and as the code builds them for its state files. A dict
-- keeps the order of insertion. A number is a natural number: counters, process ids and times.
pub mod Laws
use railwarden.Base.{
  ℕ, suc, String, Bool, true, false, not, ◌==◌, Option, none, some, List, [], ◌∷◌, ltb,
  if◌then◌else◌,
}

mutual
  pub data Value : Type 0 where
    str : String → Value
    num : ℕ → Value
    flag : Bool → Value
    null : Value
    obj : Fields → Value
    arr : Items → Value

  -- a dict
  pub data Fields : Type 0 where
    field : String → Value → Fields → Fields
    end : Fields

  -- a list
  pub data Items : Type 0 where
    cons : Value → Items → Items
    nil : Items

-- `d.get(key)`; `none` for a missing key.
unfoldable pub get : String → Fields → Option Value
get k end = none
get k (field j v d) = if j == k then some v else get k d

-- `d[key] = value`
unfoldable pub put : String → Value → Fields → Fields
put k v end = field k v end
put k v (field j w d) = if j == k then field j v d else field j w (put k v d)

-- `d.update(other)`
unfoldable pub update : Fields → Fields → Fields
unfolding put
update d end = d
update d (field k v other) = update (put k v d) other

-- `d.get(key, default)`
abbrev pub get_or : String → Value → Fields → Value
get_or k v d = elim (get k d) [ none ↦ v | some w ↦ w ]

-- The truth value of a value.
unfoldable pub truthy : Value → Bool
truthy null = false
truthy (flag b) = b
truthy (num n) = ltb 0 n
truthy (str s) = not (s == "")
truthy (arr nil) = false
truthy (arr (cons _ _)) = true
truthy (obj end) = false
truthy (obj (field _ _ _)) = true

abbrev pub texts : List String → Items
texts [] = nil
texts (x ∷ xs) = cons (str x) (texts xs)

unfoldable pub items_of : List Fields → Items
items_of [] = nil
items_of (d ∷ ds) = cons (obj d) (items_of ds)

-- `[item for item in raw if isinstance(item, dict)]`
unfoldable pub dicts : Items → List Fields
dicts nil = []
dicts (cons (obj d) xs) = d ∷ dicts xs
dicts (cons _ xs) = dicts xs

-- `str(value)`. What Python prints for a value that is neither a text nor `None` is a parameter.
abbrev pub Show : Type 0
Show = Value → String

unfoldable pub to_str : Show → Value → String
to_str show null = "None"
to_str show (str s) = s
to_str show v = show v

-- `str(d.get(key))`
unfoldable pub text_of : Show → String → Fields → String
unfolding to_str
text_of show k d = to_str show (get_or k null d)
