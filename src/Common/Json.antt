-- ===== src/Common/Json.antt =====
-- A JSON value as the code passes it around; a number is kept as its text.
use mathlib.Core.Bool.{Bool}
use Prim.Native.String.{String}

mutual
  pub data Json : Type 0 where
    null : Json
    boolean : Bool → Json
    number : String → Json
    text : String → Json
    array : Items → Json
    object : Fields → Json

  pub data Items : Type 0 where
    nil : Items
    cons : Json → Items → Items

  pub data Fields : Type 0 where
    end : Fields
    field : String → Json → Fields → Fields
