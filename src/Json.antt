-- ===== src/Json.antt =====
-- The values that Python's `json.loads` returns. A number is kept as its text, with the answer whether it
-- is other than zero.
use lacme.Prelude.{Bool, Option, none, some, List, [], ◌∷◌, if◌then◌else◌, Str, str_eq}

mutual
  pub data Json : Type 0 where
    null : Json
    bool : Bool → Json
    num : Bool → Str → Json
    text : Str → Json
    arr : Items → Json
    obj : Fields → Json

  pub data Items : Type 0 where
    nil : Items
    cons : Json → Items → Items

  pub data Fields : Type 0 where
    end : Fields
    field : Str → Json → Fields → Fields

-- `d.get(k)` on an object
unfoldable pub find : Fields → Str → Option Json
find end k = none
find (field j v d) k = if str_eq j k then some v else find d k

-- `k in d`
abbrev pub has : Fields → Str → Bool
has d k = elim (find d k) [ none ↦ Bool.false | some _ ↦ Bool.true ]

unfoldable pub of_list : List Json → Items
of_list [] = nil
of_list (v ∷ vs) = cons v (of_list vs)
