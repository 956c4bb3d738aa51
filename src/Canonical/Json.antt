-- ===== src/Canonical/Json.antt =====
-- The values that evidence is made of: what `json.dumps` accepts, floats left out. A Python list is
-- `arr`, a dictionary is `obj` with its fields in insertion order. The `to_dict` forms of the
-- evidence hold lists and no tuples.
use open_authority_trials_oa.Prelude.{
  String, Bool, Option, none, some, List, [], ◌∷◌, ◌==◌, if◌then◌else◌,
}
use open_authority_trials_oa.Prelude.Int.{ℤ}

mutual
  pub data Json : Type 0 where
    null : Json
    bool : Bool → Json
    num : ℤ → Json
    str : String → Json
    arr : Items → Json
    obj : Fields → Json

  pub data Items : Type 0 where
    nil : Items
    cons : Json → Items → Items

  pub data Fields : Type 0 where
    end : Fields
    field : String → Json → Fields → Fields

abbrev pub items : List Json → Items
items [] = nil
items (x ∷ xs) = cons x (items xs)

-- a list display
abbrev pub list : List Json → Json
list xs = arr (items xs)

-- a list of texts
abbrev pub texts : List String → Items
texts [] = nil
texts (s ∷ ss) = cons (str s) (texts ss)

-- a text or `None`
abbrev pub opt_text : Option String → Json
opt_text none = null
opt_text (some s) = str s

abbrev pub fields : List (String × Json) → Fields
fields [] = end
fields ((k, v) ∷ kvs) = field k v (fields kvs)

-- a dictionary display
abbrev pub dict : List (String × Json) → Json
dict kvs = obj (fields kvs)

-- d.get(k) of the fields of a dictionary
unfoldable pub get_field : Fields → String → Option Json
get_field end k = none
get_field (field j v fs) k = if j == k then some v else get_field fs k
