-- ===== src/Js/Json.antt =====
-- A parsed JSON value. A property that is not there reads as `undefined`, as does any property of
-- a value that is no object.
-- `number` counts hundredths: the only number that the program itself puts into JSON is an order's
-- amount, which has at most two decimals.
use platform_engineering_lab.Prelude.{
  ℕ, String, Bool, true, false, Option, none, some, ◌==◌, if◌then◌else◌, List, [], ◌∷◌,
}

mutual
  pub data Json : Type 0 where
    undefined null : Json
    bool : Bool → Json
    number : ℕ → Json
    string : String → Json
    array : Items → Json
    object : Fields → Json

  pub data Items : Type 0 where
    nil : Items
    cons : Json → Items → Items

  pub data Fields : Type 0 where
    end : Fields
    field : String → Json → Fields → Fields

abbrev pub lookup : String → Fields → Json
lookup name end = undefined
lookup name (field n v fs) = if n == name then v else lookup name fs

-- `value?.name`
abbrev pub property : String → Json → Json
property name (object fs) = lookup name fs
property name _ = undefined

-- `typeof value === 'object' && value !== null`: arrays are objects, without the names that the
-- program reads.
abbrev pub is_object : Json → Bool
is_object (object fs) = true
is_object (array xs) = true
is_object _ = false

-- `typeof value === 'string'`
abbrev pub as_string : Json → Option String
as_string (string s) = some s
as_string _ = none

-- `items.filter((r): r is string => typeof r === 'string')`
abbrev pub strings : Items → List String
strings nil = []
strings (cons (string s) xs) = s ∷ strings xs
strings (cons x xs) = strings xs

-- `Array.isArray(value) ? value.filter(…) : []`
abbrev pub strings_of : Json → List String
strings_of (array xs) = strings xs
strings_of _ = []
