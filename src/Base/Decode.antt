-- ===== src/Base/Decode.antt =====
-- What reading a record from its JSON gives: the `_field` helpers of the codecs.
use Prim.Native.Nat.{ℕ, ◌+◌}
use Prim.Native.String.{String}
use mathlib.Core.Bool.{Bool, true, false, not}
use mathlib.Core.Option.{Option, none, some}
use package.text.Mathlib.Text.{◌==◌ as str_eq}
use uas_sustainment_workbenc.Base.Tests.{◌==◌}
use uas_sustainment_workbenc.Base.Int.{pos, negsuc}
use uas_sustainment_workbenc.Base.Json.{
  Json, null, flag, whole, real, text, array, object, no_items, item, Fields, no_fields, field,
}

-- TypeError for a record that is no object, KeyError for a field that is not there, ValueError for one that
-- cannot be converted.
pub data DecodeError : Type 0 where
  not_an_object : DecodeError
  missing malformed : String → DecodeError

-- What reading gives. `untyped` is a record with a value that is not of its field's type: nothing checks it.
pub data Decoded {ℓ} (A : Type ℓ) : Type ℓ where
  decoded : A → Decoded A
  untyped : Decoded A
  raises : DecodeError → Decoded A

-- The next argument of a call, read after those before it.
infixl 5 ◌<*>◌
abbrev pub ◌<*>◌ {ℓ κ} : {A : Type ℓ} {B : Type κ} → Decoded (A → B) → Decoded A → Decoded B
decoded f <*> decoded a = decoded (f a)
decoded f <*> untyped = untyped
decoded f <*> raises e = raises e
untyped <*> decoded a = untyped
untyped <*> untyped = untyped
untyped <*> raises e = raises e
raises e <*> x = raises e

-- A value of the type of its field, or one that is passed on as it is.
abbrev pub typed {ℓ} : {A : Type ℓ} → Option A → Decoded A
typed none = untyped
typed (some a) = decoded a

-- A conversion that raises.
abbrev pub converted {ℓ} : {A : Type ℓ} → String → Option A → Decoded A
converted name none = raises (malformed name)
converted name (some a) = decoded a

-- data[name]
abbrev pub needed {ℓ} : {A : Type ℓ} → String → Option Json → (Json → Decoded A) → Decoded A
needed name none read = raises (missing name)
needed name (some v) read = read v

-- bool(v)
abbrev pub truthy : Json → Bool
truthy null = false
truthy (flag b) = b
truthy (whole n) = elim n [ pos k ↦ not (k == 0) | negsuc k ↦ true ]
truthy (real x) = elim x [ pos k ↦ not (k == 0) | negsuc k ↦ true ]
truthy (text s) = not (str_eq s "")
truthy (array vs) = elim vs [ no_items ↦ false | item _ _ ↦ true ]
truthy (object d) = elim d [ no_fields ↦ false | field _ _ _ ↦ true ]

abbrev pub size : Fields → ℕ
size no_fields = 0
size (field n v d) = size d + 1
