-- ===== src/Shared/Json.antt =====
-- JSON values: what the source holds in `dict[str, Any]`. Numbers are kept as their text, since
-- nothing of the model computes with them.
use Prim.Native.String.{String}
use mathlib.Core.Bool.{Bool}

mutual
  pub data Json : Type 0 where
    null : Json
    bool : Bool → Json
    num : String → Json
    str : String → Json
    arr : Items → Json
    obj : Fields → Json

  pub data Items : Type 0 where
    nil : Items
    cons : Json → Items → Items

  pub data Fields : Type 0 where
    end : Fields
    field : String → Json → Fields → Fields

-- {"code": c}
abbrev pub error_code : String → Json
error_code c = obj (field "code" (str c) end)

-- {"error": e}
abbrev pub error_outcome : Json → Json
error_outcome e = obj (field "error" e end)
