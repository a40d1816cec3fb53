-- ===== src/Ledger/Codec.antt =====
-- ledger/codec.py: an entry as JSON, and read back. The JSON of a detail that is a list or an object is its
-- text read by json.loads.
use uas_sustainment_workbenc.Base.{
  ℕ, ℤ, pos, negsuc, ◌*ℤ◌, ◌==◌, ◌≡◌, String, str_eq, Bool, true, false, not, Option, none, some,
  List, [], ◌∷◌, if◌then◌else◌,
}
use uas_sustainment_workbenc.Base.Time.{DateTime}
use uas_sustainment_workbenc.Base.Dict.{Dict}
use uas_sustainment_workbenc.Base.Json.{
  Json, flag as json_flag, null as json_null, whole, real, text as json_text, array, object, Items,
  Fields, no_fields, field, lookup,
}
use uas_sustainment_workbenc.Base.Decode.{
  not_an_object, malformed, Decoded, decoded, untyped, raises, ◌<*>◌, typed, converted, needed,
  truthy,
}
use uas_sustainment_workbenc.Flight.Codec.{Python}
use uas_sustainment_workbenc.Ledger.Model.{
  Kind, work_order_open, work_order_state, work_order_close, inspection_done, time_in_service_set,
  component_register, component_install, component_remove, retraction, other_kind, Value, null,
  flag, integer, number, text, other_value, Entry,
}
pub mod RoundTrip

abbrev pub kind_text : Kind → String
kind_text work_order_open = "work_order.open"
kind_text work_order_state = "work_order.state"
kind_text work_order_close = "work_order.close"
kind_text inspection_done = "inspection.done"
kind_text time_in_service_set = "time_in_service.set"
kind_text component_register = "component.register"
kind_text component_install = "component.install"
kind_text component_remove = "component.remove"
kind_text retraction = "retraction"
kind_text (other_kind s) = s

abbrev pub kind_of : String → Kind
kind_of s =
    if str_eq s "work_order.open"
    then work_order_open
    else if str_eq s "work_order.state"
    then work_order_state
    else if str_eq s "work_order.close"
    then work_order_close
    else if str_eq s "inspection.done"
    then inspection_done
    else if str_eq s "time_in_service.set"
    then time_in_service_set
    else if str_eq s "component.register"
    then component_register
    else if str_eq s "component.install"
    then component_install
    else if str_eq s "component.remove"
    then component_remove
    else if str_eq s "retraction"
    then retraction
    else other_kind s

-- A list or an object of the details from its text, and its text; dict() of what is neither an object nor
-- empty, none where it raises.
pub record Details : Type 0 where
  pub json_of : String → Json
  pub text_from : Json → String
  pub dict_of : Json → Option Fields

abbrev pub id_json : Option ℕ → Json
id_json none = json_null
id_json (some n) = whole (pos n)

abbrev pub reason_json : Option String → Json
reason_json none = json_null
reason_json (some s) = json_text s

module _ (py : Python) (values : Details) where
  abbrev pub value_json : Value → Json
  value_json null = json_null
  value_json (flag b) = json_flag b
  value_json (integer n) = whole n
  value_json (number x) = real x
  value_json (text s) = json_text s
  value_json (other_value s) = values.json_of s

  abbrev pub value_of : Json → Value
  value_of json_null = null
  value_of (json_flag b) = flag b
  value_of (whole n) = integer n
  value_of (real x) = number x
  value_of (json_text s) = text s
  value_of (array vs) = other_value (values.text_from (array vs))
  value_of (object d) = other_value (values.text_from (object d))

  -- dict(e.details)
  abbrev pub details_json : Dict Value → Fields
  details_json [] = no_fields
  details_json ((k, v) ∷ d) = field k (value_json v) (details_json d)

  abbrev pub details_of : Fields → Dict Value
  details_of no_fields = []
  details_of (field k v d) = (k, value_of v) ∷ details_of d

  -- `entry_to_json`
  unfoldable pub entry_to_json : Entry → Json
  entry_to_json e = object (
      field "id" (id_json e.id) (
        field "subject" (json_text e.subject) (
          field "kind" (json_text (kind_text e.kind)) (
            field "occurred_utc" (json_text (py.isoformat e.occurred_utc)) (
              field "recorded_utc" (json_text (py.isoformat e.recorded_utc)) (
                field "entered_by" (json_text e.entered_by) (
                  field "statement" (json_text e.statement) (
                    field "details" (object (details_json e.details)) (
                      field "supersedes" (id_json e.supersedes) (
                        field "reason" (reason_json e.reason)
                          (field "synthetic" (json_flag e.synthetic) no_fields)))))))))))

  -- An id is a number that is not negative.
  abbrev pub natural : ℤ → Decoded (Option ℕ)
  natural (pos n) = decoded (some n)
  natural (negsuc n) = untyped

  abbrev pub id_number : String → Option ℤ → Decoded (Option ℕ)
  id_number name none = raises (malformed name)
  id_number name (some n) = natural n

  -- int(v) if v is not None else None
  abbrev pub id_value : String → Json → Decoded (Option ℕ)
  id_value name json_null = decoded none
  id_value name v = id_number name (py.int_of v)

  abbrev pub id_of : String → Option Json → Decoded (Option ℕ)
  id_of name none = decoded none
  id_of name (some v) = id_value name v

  abbrev pub reason_value : Json → Option String
  reason_value json_null = none
  reason_value v = some (py.str_of v)

  abbrev pub reason_of : Option Json → Option String
  reason_of none = none
  reason_of (some v) = reason_value v

  -- datetime.fromisoformat, which takes a text
  abbrev pub time_of : String → Json → Decoded DateTime
  time_of name (json_text s) = converted name (py.fromisoformat s)
  time_of name _ = raises (malformed name)

  abbrev pub dict_value : Json → Option Fields
  dict_value (object d) = some d
  dict_value v = if truthy v then values.dict_of v else some no_fields

  -- dict(v or {})
  abbrev pub entry_details : Option Json → Option Fields
  entry_details none = some no_fields
  entry_details (some v) = dict_value v

  abbrev pub make_entry :
      Option ℕ
      → String
      → Kind
      → DateTime
      → DateTime
      → String
      → String
      → Fields
      → Option ℕ
      → Option String
      → Bool
      → Entry
  make_entry n subject kind occurred recorded by statement details supersedes reason synthetic =
      record {
        id = n;
        subject = subject;
        kind = kind;
        occurred_utc = occurred;
        recorded_utc = recorded;
        entered_by = by;
        statement = statement;
        details = details_of details;
        supersedes = supersedes;
        reason = reason;
        synthetic = synthetic;
      }

  abbrev pub text_field : Fields → String → Decoded String
  text_field d name = needed name (lookup d name) λ v. decoded (py.str_of v)

  -- `entry_from_json`
  unfoldable pub entry_from_json : Json → Decoded Entry
  entry_from_json (object d) =
      decoded make_entry
      <*> id_of "id" (lookup d "id")
      <*> text_field d "subject"
      <*> needed "kind" (lookup d "kind") (λ v. decoded (kind_of (py.str_of v)))
      <*> needed "occurred_utc" (lookup d "occurred_utc") (time_of "occurred_utc")
      <*> needed "recorded_utc" (lookup d "recorded_utc") (time_of "recorded_utc")
      <*> text_field d "entered_by"
      <*> text_field d "statement"
      <*> converted "details" (entry_details (lookup d "details"))
      <*> id_of "supersedes" (lookup d "supersedes")
      <*> decoded (reason_of (lookup d "reason"))
      <*> needed "synthetic" (lookup d "synthetic") (λ v. decoded (truthy v))
  entry_from_json _ = raises not_an_object
