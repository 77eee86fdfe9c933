-- ===== src/Push/Json.antt =====
-- What encoding/json decodes into `interface{}`, and the type assertions of internal/push/bark.go.
use apollo_backend.Prelude.{ℕ, Bool, Option, none, some, [], if◌then◌else◌}
use apollo_backend.Str.{Str, str_eq}

mutual
  pub data Json : Type 0 where
    null : Json
    bool : Bool → Json
    number : ℕ → Json
    text : Str → Json
    array : Items → Json
    object : Fields → Json

  pub data Items : Type 0 where
    nil : Items
    item : Json → Items → Items

  pub data Fields : Type 0 where
    end : Fields
    field : Str → Json → Fields → Fields

-- `m[key]`
unfoldable pub get : Str → Fields → Option Json
get key end = none
get key (field k v rest) = let r = get key rest in if str_eq k key then some v else r

-- `x, _ := v.(map[string]interface{})`: a nil map when it is none
unfoldable pub as_object : Option Json → Fields
as_object (some (object fs)) = fs
as_object _ = end

-- `x, ok := v.(string)`
unfoldable pub as_text : Option Json → Option Str
as_text (some (text s)) = some s
as_text _ = none

unfoldable pub text_or_empty : Option Json → Str
text_or_empty (some (text s)) = s
text_or_empty _ = []

-- `v.(float64)`
unfoldable pub as_number : Option Json → Option ℕ
as_number (some (number n)) = some n
as_number _ = none
