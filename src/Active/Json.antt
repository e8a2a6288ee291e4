-- ===== src/Active/Json.antt =====
-- JSON documents as Python loads them (active_validation/json_io.py rejects a key that stands twice).
use collector_security_analy.Common.{
  ℕ, String, Bool, true, false, List, [], ◌∷◌, str_eq, if◌then◌else◌,
}

-- `other` is a negative integer or a number with a fraction or an exponent.
mutual
  pub data Json : Type 0 where
    null other : Json
    boolean : Bool → Json
    number : ℕ → Json
    text : String → Json
    array : Items → Json
    object : Fields → Json

  pub data Items : Type 0 where
    nil : Items
    cons : Json → Items → Items

  pub data Fields : Type 0 where
    end : Fields
    field : String → Json → Fields → Fields

unfoldable pub items : Items → List Json
items nil = []
items (cons j js) = j ∷ items js

-- `set(data)`
unfoldable pub keys : Fields → List String
keys end = []
keys (field k v fs) = k ∷ keys fs

-- `data[key]`; `null` where the key is missing, which the callers exclude first
unfoldable pub at : String → Fields → Json
at k end = null
at k (field j v fs) = if str_eq j k then v else at k fs

abbrev pub is_boolean : Json → Bool
is_boolean (boolean _) = true
is_boolean _ = false

-- `value is True`
abbrev pub is_true : Json → Bool
is_true (boolean b) = b
is_true _ = false

abbrev pub is_text : String → Json → Bool
is_text s (text t) = str_eq s t
is_text s _ = false
