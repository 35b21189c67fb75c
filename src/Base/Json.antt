-- ===== src/Base/Json.antt =====
-- Python's values as `json.loads` makes them, and what the code does with a value of any type.
use Prim.Native.String.{String}
use mathlib.Core.Bool.{Bool, true, false, not, ◌||◌}
use mathlib.Core.List.{List, [], ◌∷◌}
use mathlib.Core.Option.{Option, none, some}
use package.text.Mathlib.Text.{◌==◌}
use schema_pilot.Base.Tests.{if◌then◌else◌}
use schema_pilot.Base.Text.{is_empty}

-- A number stands for its text.
mutual
  pub data Json : Type 0 where
    null : Json
    boolean : Bool → Json
    number : String → Json
    text : String → Json
    array : Items → Json
    object : Fields → Json

  pub data Items : Type 0 where
    nil : Items
    cons : Json → Items → Items

  pub data Fields : Type 0 where
    end : Fields
    field : String → Json → Fields → Fields

-- `d.get(k, default)`
abbrev pub get : String → Json → Fields → Json
get k default end = default
get k default (field j v d) = if j == k then v else get k default d

abbrev pub has_key : String → Fields → Bool
has_key k end = false
has_key k (field j v d) = j == k || has_key k d

-- `isinstance(value, list)`, and its elements
abbrev pub as_list : Json → Option Items
as_list (array xs) = some xs
as_list null = none
as_list (boolean b) = none
as_list (number n) = none
as_list (text t) = none
as_list (object d) = none

-- `isinstance(value, dict)`
abbrev pub as_dict : Json → Option Fields
as_dict (object d) = some d
as_dict null = none
as_dict (boolean b) = none
as_dict (number n) = none
as_dict (text t) = none
as_dict (array xs) = none

-- `bool(value)`
abbrev pub is_truthy : Json → Bool
is_truthy null = false
is_truthy (boolean b) = b
is_truthy (number n) = not (n == "0" || n == "0.0" || n == "-0.0")
is_truthy (text t) = not (is_empty t)
is_truthy (array nil) = false
is_truthy (array (cons x xs)) = true
is_truthy (object end) = false
is_truthy (object (field k v d)) = true

-- `str(value)`; `repr` is Python's text of a list or a dictionary.
abbrev pub str : (Json → String) → Json → String
str repr null = "None"
str repr (boolean true) = "True"
str repr (boolean false) = "False"
str repr (number n) = n
str repr (text t) = t
str repr (array xs) = repr (array xs)
str repr (object d) = repr (object d)

abbrev pub elements : Items → List Json
elements nil = []
elements (cons x xs) = x ∷ elements xs

abbrev pub items_of : List Json → Items
items_of [] = nil
items_of (x ∷ xs) = cons x (items_of xs)
