-- ===== src/Json.antt =====
-- JSON values, as `JSON.stringify` is given them in the request bodies of web/src and agentweb/src.
use proxer.Base.{String, List, [], ◌∷◌, Bool, Option, none, some, if◌then◌else◌, ◌==◌}
use proxer.Number.{Num}

mutual
  pub data Json : Type 0 where
    null : Json
    bool : Bool → Json
    num : Num → Json
    text : String → Json
    arr : Items → Json
    obj : Fields → Json

  pub data Items : Type 0 where
    nil : Items
    cons : Json → Items → Items

  pub data Fields : Type 0 where
    end : Fields
    field : String → Json → Fields → Fields

-- the members of an object literal, in order
abbrev pub fields : List (String × Json) → Fields
fields [] = end
fields ((k, v) ∷ rest) = field k v (fields rest)

abbrev pub object : List (String × Json) → Json
object members = obj (fields members)

-- `payload.key`: the last member of that name counts, as `JSON.parse` keeps it
abbrev pub member : String → Fields → Option Json
member key end = none
member key (field k v rest) = elim (member key rest) [
  | some later ↦ some later
  | none ↦ if k == key then some v else none
]
