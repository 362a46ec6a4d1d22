-- ===== src/Value.antt =====
-- The values that the JSON decoder builds: Go's `interface{}` and `map[string]interface{}`.
use special_resource_operato.Prelude.{Bool, String}
use special_resource_operato.Prelude.Int.{ℤ}

mutual
  pub data Value : Type 0 where
    null : Value
    bool : Bool → Value
    int64 : ℤ → Value
    float64 : String → Value
    string : String → Value
    slice : Items → Value
    object : Fields → Value

  pub data Items : Type 0 where
    nil : Items
    cons : Value → Items → Items

  -- map[string]interface{}, with its entries in the order in which a `range` meets them
  pub data Fields : Type 0 where
    empty : Fields
    field : String → Value → Fields → Fields
