-- ===== src/Engine/Json.antt =====
-- The values that encoding/json decodes into `interface{}`, and its operations. Numbers are
-- float64 values, of which the parser only prints and re-encodes: their type is a parameter, and
-- with it the three operations that read or write the text of a number.
use mcpwatch.Base.{Bool, Option, none, some, Bytes, eq_bytes, if◌then◌else◌}

mutual
  pub data Value (F : Type 0) : Type 0 where
    null : Value F
    bool : Bool → Value F
    number : F → Value F
    str : Bytes → Value F
    arr : Items F → Value F
    obj : Fields F → Value F

  pub data Items (F : Type 0) : Type 0 where
    nil : Items F
    cons : Value F → Items F → Items F

  -- `map[string]interface{}`: a key has one entry.
  pub data Fields (F : Type 0) : Type 0 where
    end : Fields F
    field : Bytes → Value F → Fields F → Fields F

-- `v, ok := m[key]`.
unfoldable pub get : {F : Type 0} → Bytes → Fields F → Option (Value F)
get key end = none
get key (field k v m) = if eq_bytes k key then some v else get key m

pub record Codec (F : Type 0) : Type 0 where
  -- `json.Unmarshal` into a map; `none` is an error. The text `null` gives the empty map.
  pub unmarshal : Bytes → Option (Fields F)
  -- `json.Marshal` of a decoded value, which does not fail.
  pub marshal : Value F → Bytes
  -- `fmt.Sprintf("%v", v)`.
  pub print : Value F → Bytes
  -- `json.Unmarshal` into the struct with `meta.traceparent` and `_meta.traceparent`.
  pub unmarshal_meta : Bytes → Option (Bytes × Bytes)
