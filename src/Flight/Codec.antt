-- ===== src/Flight/Codec.antt =====
-- flight/codec.py: a flight record as JSON, and read back. A field is its value or {"unknown": why}.
pub mod RoundTrip
use uas_sustainment_workbenc.Base.{
  ℕ, ℤ, pos, negsuc, ◌*ℤ◌, ◌==◌, ◌≡◌, ◌+◌, String, str_eq, Bool, true, false, not, ◌&&◌, Option,
  none, some, List, [], ◌∷◌, if◌then◌else◌,
}
use uas_sustainment_workbenc.Base.Time.{DateTime}
use uas_sustainment_workbenc.Base.Json.{
  Json, null, flag, whole, real, text, array, object, Items, no_items, item, Fields, no_fields,
  field, lookup,
}
use uas_sustainment_workbenc.Base.Decode.{
  DecodeError, not_an_object, missing, malformed, Decoded, decoded, untyped, raises, ◌<*>◌, typed,
  converted, needed, truthy, size,
}
use uas_sustainment_workbenc.Flight.Record.{
  Source, px4, ardupilot, Reason, said, Maybe, known, unknown, FaultEvent, LifetimeCounter,
  FlightRecord,
}

-- datetime.isoformat and datetime.fromisoformat, str() and float() and int() of a JSON value (none where the call
-- raises), and the words of a reason.
pub record Python : Type 0 where
  pub isoformat : DateTime → String
  pub fromisoformat : String → Option DateTime
  pub str_of : Json → String
  pub float_of : Json → Option ℤ
  pub int_of : Json → Option ℤ
  pub words : Reason → String

-- What the codec relies on of them.
pub record IsPython (py : Python) : Type 0 where
  pub iso_round : (t : DateTime) → py.fromisoformat (py.isoformat t) ≡ some t
  pub str_text : (s : String) → py.str_of (text s) ≡ s
  pub float_real : (x : ℤ) → py.float_of (real x) ≡ some x
  pub int_whole : (n : ℤ) → py.int_of (whole n) ≡ some n

abbrev pub source_text : Source → String
source_text px4 = "px4"
source_text ardupilot = "ardupilot"

module _ (py : Python) where
  -- `_out`: a value, or why it is not known
  abbrev pub out {ℓ} : {A : Type ℓ} → (A → Json) → Maybe A → Json
  out f (known a) = f a
  out f (unknown r) = object (field "unknown" (text (py.words r)) no_fields)

  -- asdict
  abbrev pub fault_json : FaultEvent → Json
  fault_json e = object (
      field "t_s" (real e.t_s)
        (field "kind" (text e.kind) (field "detail" (text e.detail) no_fields)))

  abbrev pub faults_json : List FaultEvent → Items
  faults_json [] = no_items
  faults_json (e ∷ es) = item (fault_json e) (faults_json es)

  abbrev pub lifetime_json : LifetimeCounter → Json
  lifetime_json c = object (
      field "at_boot_s" (real c.at_boot_s) (
        field "last_seen_s" (real c.last_seen_s)
          (field "last_seen_at_s" (real c.last_seen_at_s) no_fields)))

  -- `record_to_json`
  unfoldable pub record_to_json : FlightRecord → Json
  record_to_json r = object (
      field "source" (text (source_text r.source)) (
        field "log_ref" (text r.log_ref) (
          field "licence" (text r.licence) (
            field "attribution" (text r.attribution) (
              field "firmware" (text r.firmware) (
                field "log_span_s" (real r.log_span_s) (
                  field "aircraft_key" (out text r.aircraft_key) (
                    field "utc_start" (out (λ t. text (py.isoformat t)) r.utc_start) (
                      field "flight_time_s" (out real r.flight_time_s) (
                        field "arm_cycles" (out whole r.arm_cycles) (
                          field "landings" (out whole r.landings) (
                            field "battery_mah" (out real r.battery_mah) (
                              field "battery_wh" (out real r.battery_wh) (
                                field "fault_events"
                                  (out (λ es. array (faults_json es)) r.fault_events)
                                  (field "boot_count" (out whole r.boot_count) (
                                    field "lifetime" (out lifetime_json r.lifetime) (
                                      field "synthetic" (flag r.synthetic)
                                        no_fields)))))))))))))))))

  -- `_maybe` of a value whose known form is read by `f`.
  abbrev pub maybe {ℓ} : {A : Type ℓ} → (Json → Decoded A) → Json → Decoded (Maybe A)
  maybe f (object (field n v no_fields)) =
      if str_eq n "unknown"
      then decoded (unknown (said (py.str_of v)))
      else decoded known <*> f (object (field n v no_fields))
  maybe f v = decoded known <*> f v

  abbrev pub as_source : Json → Option Source
  as_source (text s) =
      if str_eq s "px4" then some px4 else if str_eq s "ardupilot" then some ardupilot else none
  as_source _ = none

  abbrev pub as_text : Json → Option String
  as_text (text s) = some s
  as_text _ = none

  abbrev pub as_whole : Json → Option ℤ
  as_whole (whole n) = some n
  as_whole _ = none

  -- An int is a number where a float is expected.
  abbrev pub as_real : Json → Option ℤ
  as_real (real x) = some x
  as_real (whole n) = some (n *ℤ pos 1000)
  as_real _ = none

  -- FaultEvent(**e), which takes its three names and no other
  abbrev pub fault_fields : Fields → Option Json → Option Json → Option Json → Decoded FaultEvent
  fault_fields d (some t) (some k) (some m) =
      if size d == 3
      then decoded (λ at kind detail. record { t_s = at; kind = kind; detail = detail })
        <*> typed (as_real t)
        <*> typed (as_text k)
        <*> typed (as_text m)
      else raises (malformed "fault_events")
  fault_fields d _ _ _ = raises (malformed "fault_events")

  abbrev pub fault_event : Json → Decoded FaultEvent
  fault_event (object d) = fault_fields d (lookup d "t_s") (lookup d "kind") (lookup d "detail")
  fault_event _ = raises (malformed "fault_events")

  abbrev pub fault_list : Items → Decoded (List FaultEvent)
  fault_list no_items = decoded []
  fault_list (item v vs) = decoded (λ e es. e ∷ es) <*> fault_event v <*> fault_list vs

  abbrev pub fault_events : Json → Decoded (List FaultEvent)
  fault_events (array vs) = fault_list vs
  fault_events _ = untyped

  -- LifetimeCounter(**v)
  abbrev pub counter_fields :
      Fields → Option Json → Option Json → Option Json → Decoded LifetimeCounter
  counter_fields d (some a) (some b) (some c) =
      if size d == 3
      then decoded (λ x y z. record { at_boot_s = x; last_seen_s = y; last_seen_at_s = z })
        <*> typed (as_real a)
        <*> typed (as_real b)
        <*> typed (as_real c)
      else raises (malformed "lifetime")
  counter_fields d _ _ _ = raises (malformed "lifetime")

  abbrev pub lifetime : Json → Decoded LifetimeCounter
  lifetime (object d) =
      counter_fields d (lookup d "at_boot_s") (lookup d "last_seen_s") (lookup d "last_seen_at_s")
  lifetime _ = untyped

  abbrev pub utc_start : Json → Decoded DateTime
  utc_start (text s) = converted "utc_start" (py.fromisoformat s)
  utc_start _ = untyped

  abbrev pub flag_or_false : Option Json → Bool
  flag_or_false none = false
  flag_or_false (some v) = truthy v

  abbrev pub make :
      Source
      → String
      → String
      → String
      → String
      → ℤ
      → Maybe String
      → Maybe DateTime
      → Maybe ℤ
      → Maybe ℤ
      → Maybe ℤ
      → Maybe ℤ
      → Maybe ℤ
      → Maybe (List FaultEvent)
      → Maybe ℤ
      → Maybe LifetimeCounter
      → Bool
      → FlightRecord
  make s l c a f span key utc time arms lands mah wh faults boots life fake = record {
    source = s;
    log_ref = l;
    licence = c;
    attribution = a;
    firmware = f;
    log_span_s = span;
    aircraft_key = key;
    utc_start = utc;
    flight_time_s = time;
    arm_cycles = arms;
    landings = lands;
    battery_mah = mah;
    battery_wh = wh;
    fault_events = faults;
    boot_count = boots;
    lifetime = life;
    synthetic = fake;
  }

  -- str(data[name])
  abbrev pub string_field : Fields → String → Decoded String
  string_field d name = needed name (lookup d name) λ v. decoded (py.str_of v)

  abbrev pub maybe_field {ℓ} :
      {A : Type ℓ} → Fields → String → (Json → Decoded A) → Decoded (Maybe A)
  maybe_field d name f = needed name (lookup d name) (maybe f)

  abbrev pub fields_record : Fields → Decoded FlightRecord
  fields_record d =
      decoded make
      <*> needed "source" (lookup d "source") (λ v. typed (as_source v))
      <*> string_field d "log_ref"
      <*> string_field d "licence"
      <*> string_field d "attribution"
      <*> string_field d "firmware"
      <*> needed "log_span_s" (lookup d "log_span_s") (λ v. converted "log_span_s" (py.float_of v))
      <*> maybe_field d "aircraft_key" (λ v. typed (as_text v))
      <*> maybe_field d "utc_start" utc_start
      <*> maybe_field d "flight_time_s" (λ v. typed (as_real v))
      <*> maybe_field d "arm_cycles" (λ v. typed (as_whole v))
      <*> maybe_field d "landings" (λ v. typed (as_whole v))
      <*> maybe_field d "battery_mah" (λ v. typed (as_real v))
      <*> maybe_field d "battery_wh" (λ v. typed (as_real v))
      <*> maybe_field d "fault_events" fault_events
      <*> maybe_field d "boot_count" (λ v. typed (as_whole v))
      <*> maybe_field d "lifetime" lifetime
      <*> decoded (flag_or_false (lookup d "synthetic"))

  -- `record_from_json`: three fields are looked up before the others.
  unfoldable pub record_from_json : Json → Decoded FlightRecord
  record_from_json (object d) = needed "utc_start" (lookup d "utc_start") λ utc.
      needed "lifetime" (lookup d "lifetime")
        λ life. needed "fault_events" (lookup d "fault_events") λ faults. fields_record d
  record_from_json _ = raises not_an_object
