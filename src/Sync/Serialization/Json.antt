-- ===== src/Sync/Serialization/Json.antt =====
-- JSON values, and the readings of them that raise.
use worshiptool_churchtools.Prelude.{
  ℕ, String, Bool, Option, none, some, List, [], ◌∷◌, if◌then◌else◌, ◌==◌,
}

mutual
  pub data Json : Type 0 where
    null : Json
    truth : Bool → Json
    number : ℕ → Json
    text : String → Json
    array : Items → Json
    object : Fields → Json

  pub data Items : Type 0 where
    nil : Items
    cons : Json → Items → Items

  pub data Fields : Type 0 where
    end : Fields
    field : String → Json → Fields → Fields

-- A reading: `none` is a `KeyError`, a `TypeError`, a `ValueError` or a `SchemaDriftError`, which all
-- end as a `SchemaDriftError`.
module _ {A B : Type 0} where
  infixl 5 ◌>>=◌
  abbrev pub ◌>>=◌ : Option A → (A → Option B) → Option B
  none >>= k = none
  some a >>= k = k a

-- `value.get(key)`
abbrev pub lookup : String → Fields → Option Json
lookup key end = none
lookup key (field k v fs) = let rest = lookup key fs in if k == key then some v else rest

-- `_mapping`
abbrev pub mapping : Json → Option Fields
mapping (object fs) = some fs
mapping _ = none

abbrev pub list_in : Option Json → Option Items
list_in (some (array items)) = some items
list_in _ = none

-- `_list`
abbrev pub list_at : String → Fields → Option Items
list_at key fs = list_in (lookup key fs)

-- Each item of a list by a reading.
unfoldable pub each : {A : Type 0} → (Json → Option A) → Items → Option (List A)
each read nil = some []
each read (cons item items) =
    let rest = each read items in read item >>= λ a. rest >>= λ more. some (a ∷ more)

-- `[to_primitive(item) for item in value]`
unfoldable pub items_of : {A : Type 0} → (A → Json) → List A → Items
items_of write [] = nil
items_of write (a ∷ more) = cons (write a) (items_of write more)

abbrev pub fields_of : List (String × Json) → Fields
fields_of [] = end
fields_of ((key, value) ∷ entries) = field key value (fields_of entries)
