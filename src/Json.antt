-- ===== src/Json.antt =====
-- JSON values, as Python's `dict`, `list`, `str`, `int`, `bool` and `None`, and the few operations on
-- them that the code uses. Numbers are naturals: the code stores positions, versions and counts.
use modelship.Prelude.{
  zero, suc, ℕ, String, ◌≡◌, refl, ap, Bool, true, false, Option, none, some, List, [], ◌∷◌, arith,
  eq_iff, str_eq, if◌then◌else◌,
}

mutual
  pub data Json : Type 0 where
    null : Json
    bool : Bool → Json
    int : ℕ → Json
    str : String → Json
    arr : Items → Json
    obj : Fields → Json

  pub data Items : Type 0 where
    nil : Items
    cons : Json → Items → Items

  pub data Fields : Type 0 where
    end : Fields
    field : String → Json → Fields → Fields

unfoldable pub to_list : Items → List Json
to_list nil = []
to_list (cons x xs) = x ∷ to_list xs

unfoldable pub of_list : List Json → Items
of_list [] = nil
of_list (x ∷ xs) = cons x (of_list xs)

pub to_list-of_list : (xs : List Json) → to_list (of_list xs) ≡ xs
unfolding to_list of_list
to_list-of_list [] = refl
to_list-of_list (x ∷ xs) = ap (◌∷◌ x) (to_list-of_list xs)

-- d.get(k)
unfoldable pub field_of : String → Fields → Option Json
field_of k end = none
field_of k (field j v d) = if str_eq j k then some v else field_of k d

-- {**d, k: v}
unfoldable pub with_field : String → Json → Fields → Fields
with_field k v end = field k v end
with_field k v (field j w d) = if str_eq j k then field j v d else field j w (with_field k v d)

pub field_of-with_field :
    (j k : String) (v : Json) (d : Fields)
    → field_of j (with_field k v d) ≡ (if str_eq k j then some v else field_of j d)
unfolding field_of with_field
field_of-with_field j k v end = refl
field_of-with_field j k v (field i w d) =
    ground (arith, eq_iff k j, eq_iff i k, eq_iff i j, field_of-with_field j k v d)

-- the dict of a value, if it is one
abbrev pub as_obj : Json → Option Fields
as_obj (obj d) = some d
as_obj _ = none

-- the list of a value, if it is one
unfoldable pub as_arr : Json → Option (List Json)
unfolding to_list
as_arr (arr xs) = some (to_list xs)
as_arr _ = none

abbrev pub as_str : Json → Option String
as_str (str s) = some s
as_str _ = none

-- an `int`; in Python `True` and `False` are the ints 1 and 0
abbrev pub as_int : Json → Option ℕ
as_int (int n) = some n
as_int (bool true) = some 1
as_int (bool false) = some 0
as_int _ = none

-- whether `if v` holds
abbrev pub truthy : Json → Bool
truthy null = false
truthy (bool b) = b
truthy (int zero) = false
truthy (int (suc n)) = true
truthy (str s) = if str_eq s "" then false else true
truthy (arr nil) = false
truthy (arr (cons x xs)) = true
truthy (obj end) = false
truthy (obj (field k v d)) = true

-- d.get(k), where `None` and a missing key are not told apart
abbrev pub present : Option Json → Option Json
present none = none
present (some null) = none
present (some v) = some v

unfoldable pub list_json : List Json → Json
list_json xs = arr (of_list xs)

pub as_arr-list_json : (xs : List Json) → as_arr (list_json xs) ≡ some xs
unfolding as_arr list_json
as_arr-list_json xs = ap some (to_list-of_list xs)
