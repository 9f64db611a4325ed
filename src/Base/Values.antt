-- ===== src/Base/Values.antt =====
-- The values that js-yaml reads and writes, and the library as an interface: its texts, what it
-- loads, and its dump with sorted keys, which the sources compare.
use mathlib.Core.Path.{◌≡◌, refl}
use mathlib.Core.Logic.{◌↔◌}
use mathlib.Core.Bool.{Bool, true, false, not}
use mathlib.Core.Option.{Option, none, some}
use mathlib.Core.List.{List, [], ◌∷◌}
use k8s_sentinel.Base.Lists.{is_empty}
use k8s_sentinel.Base.Strings.{Text, lit, ◌===◌}
use k8s_sentinel.Base.Objects.{Object, get}

-- A number is the text that JavaScript prints for it.
mutual
  pub data Json : Type 0 where
    null : Json
    bool : Bool → Json
    num : Text → Json
    str : Text → Json
    arr : Items → Json
    obj : Fields → Json

  pub data Items : Type 0 where
    nil : Items
    cons : Json → Items → Items

  pub data Fields : Type 0 where
    end : Fields
    field : Text → Json → Fields → Fields

abbrev pub items : List Json → Items
items [] = nil
items (x ∷ xs) = cons x (items xs)

abbrev pub of_items : Items → List Json
of_items nil = []
of_items (cons x xs) = x ∷ of_items xs

abbrev pub fields : Object Json → Fields
fields [] = end
fields ((k, v) ∷ o) = field k v (fields o)

abbrev pub of_fields : Fields → Object Json
of_fields end = []
of_fields (field k v o) = (k, v) ∷ of_fields o

abbrev pub array : List Json → Json
array xs = arr (items xs)

abbrev pub object : Object Json → Json
object o = obj (fields o)

pub of_items-items : (xs : List Json) → of_items (items xs) ≡ xs
of_items-items [] = refl
of_items-items (x ∷ xs) = λ i. x ∷ of_items-items xs i

pub of_fields-fields : (o : Object Json) → of_fields (fields o) ≡ o
of_fields-fields [] = refl
of_fields-fields ((k, v) ∷ o) = λ i. (k, v) ∷ of_fields-fields o i

-- Nothing that has keys.
abbrev pub IsBare : Option Json → Type 0
IsBare (some (obj o)) = of_fields o ≡ []
IsBare (some (arr xs)) = of_items xs ≡ []
IsBare (some (str s)) = s ≡ []
IsBare _ = Unit

-- `j?.k`: `none` where the source reads `undefined` (or throws, since `j` is null).
abbrev pub prop : Text → Json → Option Json
prop k (obj o) = get k (of_fields o)
prop k _ = none

-- `o?.k` of what was itself looked up.
abbrev pub prop_of : Text → Option Json → Option Json
prop_of k none = none
prop_of k (some j) = prop k j

abbrev pub as_array : Json → Option (List Json)
as_array (arr xs) = some (of_items xs)
as_array _ = none

abbrev pub as_object : Json → Option (Object Json)
as_object (obj o) = some (of_fields o)
as_object _ = none

abbrev pub as_text : Json → Option Text
as_text (str s) = some s
as_text _ = none

-- Whether a value counts as true in a condition.
abbrev pub truthy : Json → Bool
truthy null = false
truthy (bool b) = b
truthy (num n) = not (n === lit "0")
truthy (str s) = not (is_empty s)
truthy _ = true

-- js-yaml: `load` gives `none` where it throws or reads an empty document, and `canon` is the
-- text of `dump` with `sortKeys`, which the sources only compare.
pub record Yaml : Type 1 where
  pub Doc : Type 0
  pub Canon : Type 0
  pub load : Doc → Option Json
  pub dump : Json → Doc
  pub blank : Doc
  pub canon : Json → Canon
  pub same : Canon → Canon → Bool
  pub same_iff : (a b : Canon) → (same a b ≡ true) ↔ (a ≡ b)
