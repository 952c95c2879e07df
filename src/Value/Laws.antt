-- ===== src/Value/Laws.antt =====
-- Laws of dicts of values.
use railwarden.Base.{
  String, Bool, true, false, ◌==◌, eq_iff, eq_refl, some, List, [], ◌∷◌, ◌≡◌, refl, ap,
  if◌then◌else◌, arith,
}
use railwarden.Value.{
  Value, str, Fields, end, field, get, put, update, items_of, dicts, Show, text_of,
}

pub get-put :
    (k j : String) (v : Value) (d : Fields)
    → get j (put k v d) ≡ (if k == j then some v else get j d)
unfolding get put
get-put k j v end = refl
get-put k j v (field i w d) = ground (arith, eq_iff k j, eq_iff i k, eq_iff i j, get-put k j v d)

pub get-put_self : (k : String) (v : Value) (d : Fields) → get k (put k v d) ≡ some v
get-put_self k v d = simp (get-put, eq_refl)

pub get-put_ne :
    (k j : String) (v : Value) (d : Fields) → (k == j) ≡ false → get j (put k v d) ≡ get j d
get-put_ne k j v d h = rw (get-put, h)

-- `key in d`
unfoldable pub has : String → Fields → Bool
has k end = false
has k (field j _ d) = if j == k then true else has k d

pub get-update_ne :
    (j : String) (d other : Fields) → has j other ≡ false → get j (update d other) ≡ get j d
unfolding update has
get-update_ne j d end h = refl
get-update_ne j d (field k v other) h =
    rw (get-update_ne j (put k v d) other (ground arith)) (get-put_ne k j v d (ground arith))

pub text_of_str :
    (show : Show) (k s : String) (d : Fields) → get k d ≡ some (str s) → text_of show k d ≡ s
unfolding text_of
text_of_str show k s d h = ground arith

pub dicts-items_of : (ds : List Fields) → dicts (items_of ds) ≡ ds
unfolding dicts items_of
dicts-items_of [] = refl
dicts-items_of (d ∷ ds) = ap (λ xs. d ∷ xs) (dicts-items_of ds)
