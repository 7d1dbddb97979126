-- ===== src/Common/Json.antt =====
-- The values of `json.loads`, and of the dictionaries that the program passes on as payloads. The
-- fields of an object are in insertion order, with distinct keys. A number is a sign and a whole
-- magnitude.
use rrpp_agent_bridge.Common.{
  ℕ, String, Bool, true, false, ◌&&◌, ◌||◌, Option, none, some, List, [], ◌∷◌, eqb, ◌==◌,
  if◌then◌else◌,
}

mutual
  pub data Value : Type 0 where
    null : Value
    bool : Bool → Value
    num : Bool → ℕ → Value
    text : String → Value
    arr : Items → Value
    obj : Fields → Value

  pub data Fields : Type 0 where
    end : Fields
    field : String → Value → Fields → Fields

  pub data Items : Type 0 where
    nil : Items
    cons : Value → Items → Items

-- value.get(key) of a dictionary, with `none` for a missing key.
unfoldable pub get_field : String → Fields → Option Value
get_field k end = none
get_field k (field j v fs) = if j == k then some v else get_field k fs

unfoldable pub items_list : Items → List Value
items_list nil = []
items_list (cons v vs) = v ∷ items_list vs

unfoldable pub list_items : List Value → Items
list_items [] = nil
list_items (v ∷ vs) = cons v (list_items vs)

unfoldable pub keys : Fields → List String
keys end = []
keys (field k v fs) = k ∷ keys fs

-- value in names
unfoldable pub member : String → List String → Bool
member s [] = false
member s (t ∷ ts) = s == t || member s ts

unfoldable pub all_in : List String → List String → Bool
unfolding member
all_in [] ts = true
all_in (s ∷ ss) ts = member s ts && all_in ss ts

-- set(value) == names
unfoldable pub has_exactly : List String → Fields → Bool
unfolding keys all_in
has_exactly names fs = all_in (keys fs) names && all_in names (keys fs)

-- bool(value)
unfoldable pub truthy : Value → Bool
truthy null = false
truthy (bool b) = b
truthy (num negative n) = elim (eqb n 0) [ true ↦ false | false ↦ true ]
truthy (text s) = elim (s == "") [ true ↦ false | false ↦ true ]
truthy (arr nil) = false
truthy (arr (cons v vs)) = true
truthy (obj end) = false
truthy (obj (field k v fs)) = true
