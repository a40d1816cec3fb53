-- ===== src/Base/Json.antt =====
-- A JSON value as Python's json module gives it: an object is a dict, so its names are distinct.
use Prim.Native.String.{String}
use mathlib.Core.Bool.{Bool}
use mathlib.Core.Option.{Option, none, some}
use package.text.Mathlib.Text.{◌==◌ as str_eq}
use uas_sustainment_workbenc.Base.Tests.{if◌then◌else◌}
use uas_sustainment_workbenc.Base.Int.{ℤ}

mutual
  -- `whole` is a Python int. `real` is a float, in thousandths.
  pub data Json : Type 0 where
    null : Json
    flag : Bool → Json
    whole : ℤ → Json
    real : ℤ → Json
    text : String → Json
    array : Items → Json
    object : Fields → Json

  pub data Items : Type 0 where
    no_items : Items
    item : Json → Items → Items

  pub data Fields : Type 0 where
    no_fields : Fields
    field : String → Json → Fields → Fields

-- d.get(name)
abbrev pub lookup : Fields → String → Option Json
lookup no_fields name = none
lookup (field n v d) name = let rest = lookup d name in if str_eq n name then some v else rest
