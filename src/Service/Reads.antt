-- ===== src/Service/Reads.antt =====
-- service/store.py: what the store reads. Every record is read through `_entry` or `_flight`; one that cannot
-- be read ends the read.
use Prim.Native.String.{compare}
use Prim.Native.Nat.{Ordering}
use uas_sustainment_workbenc.Base.{
  ℕ, ◌+◌, ◌==◌, ltb, String, str_eq, Bool, true, false, not, ◌&&◌, ◌||◌, keep, first, length,
  Option, none, some, List, [], ◌∷◌, ◌++◌, map, if◌then◌else◌,
}
use uas_sustainment_workbenc.Base.Sort.{sort_by}
use uas_sustainment_workbenc.Base.Time.{DateTime, in_utc}
use uas_sustainment_workbenc.Base.Json.{Json, object, lookup}
use uas_sustainment_workbenc.Base.Decode.{DecodeError, Decoded, decoded, untyped, raises}
use uas_sustainment_workbenc.Flight.Record.{
  Source, px4, ardupilot, Maybe, known, unknown, FlightRecord,
}
use uas_sustainment_workbenc.Flight.Codec.{maybe, utc_start, record_from_json}
use uas_sustainment_workbenc.Ledger.Model.{Entry}
use uas_sustainment_workbenc.Ledger.Codec.{entry_from_json}
use uas_sustainment_workbenc.Service.Tables.{AircraftRow, EntryRow, FlightRow, Db, find_entry}
use uas_sustainment_workbenc.Service.Writes.{Aircraft, Platform}
pub mod Refinement
pub mod Logs

-- Why a record cannot be read: no JSON, what the codec raises, or a time with no UTC offset.
pub data Cannot : Type 0 where
  not_json no_offset : Cannot
  not_decoded : DecodeError → Cannot

-- `UnreadableRecord`: its table, row, subject, log and why
pub record Unreadable : Type 0 where
  pub table : String
  pub row_id : ℕ
  pub subject : String
  pub log_ref : Option String
  pub why : Cannot

-- What a read gives. `odd` is a record with a value that is not of its field's type.
pub data Shown {ℓ} (A : Type ℓ) : Type ℓ where
  shown : A → Shown A
  odd : Shown A
  unreadable : Unreadable → Shown A

-- One record after another, up to the first that cannot be read.
abbrev pub and_then {ℓ} : {A : Type ℓ} → Shown A → Shown (List A) → Shown (List A)
and_then (unreadable u) rest = unreadable u
and_then odd (unreadable u) = unreadable u
and_then odd rest = odd
and_then (shown a) (shown bs) = shown (a ∷ bs)
and_then (shown a) odd = odd
and_then (shown a) (unreadable u) = unreadable u

-- tzinfo is not None
abbrev pub has_offset : DateTime → Bool
has_offset t = elim t.offset [ none ↦ false | some o ↦ true ]

-- The record's UTC start is not known, or a datetime with its offset.
abbrev pub start_holds : Decoded (Maybe DateTime) → Bool
start_holds (decoded (known t)) = has_offset t
start_holds (decoded (unknown r)) = true
start_holds _ = false

abbrev pub in_utc_times : Entry → Entry
in_utc_times e = record e {
  occurred_utc = in_utc e.occurred_utc;
  recorded_utc = in_utc e.recorded_utc;
}

abbrev pub text_le : String → String → Bool
text_le a b = elim (compare a b) [ Ordering.gt ↦ false | _ ↦ true ]

module _ (p : Platform) where
  abbrev pub bad_entry : EntryRow → Cannot → Shown Entry
  bad_entry r why =
      unreadable (record {
        table = "entries";
        row_id = r.id;
        subject = r.subject;
        log_ref = none;
        why = why;
      })

  abbrev pub decoded_entry : EntryRow → Decoded Entry → Shown Entry
  decoded_entry r (raises e) = bad_entry r (not_decoded e)
  decoded_entry r untyped = odd
  decoded_entry r (decoded e) =
      if not (has_offset e.occurred_utc) || not (has_offset e.recorded_utc)
      then bad_entry r no_offset
      else shown (in_utc_times e)

  abbrev pub parsed_entry : EntryRow → Option Json → Shown Entry
  parsed_entry r none = bad_entry r not_json
  parsed_entry r (some j) = decoded_entry r (entry_from_json p.py p.values j)

  -- `_entry`
  unfoldable pub shown_entry : EntryRow → Shown Entry
  unfolding entry_from_json in_utc
  shown_entry r = parsed_entry r (p.lib.loads r.record_text)

  abbrev pub shown_entries : List EntryRow → Shown (List Entry)
  shown_entries [] = shown []
  shown_entries (r ∷ rs) = and_then (shown_entry r) (shown_entries rs)

  -- `entries`: every entry, in the order of their ids
  unfoldable pub entries : Db → Shown (List Entry)
  unfolding shown_entry
  entries db = shown_entries db.entries

  -- `entries` of one subject
  unfoldable pub entries_of : Db → String → Shown (List Entry)
  unfolding shown_entry
  entries_of db subject = shown_entries (keep (λ r. str_eq r.subject subject) db.entries)

  abbrev pub bad_flight : FlightRow → Cannot → Shown FlightRecord
  bad_flight r why = unreadable (record {
    table = "flights";
    row_id = r.id;
    subject = r.aircraft_key;
    log_ref = some r.log_ref;
    why = why;
  })

  abbrev pub known_start : Maybe DateTime → Bool
  known_start (known t) = has_offset t
  known_start (unknown r) = true

  -- The UTC start as it is in the JSON.
  abbrev pub start_of : Json → Bool
  start_of (object d) = elim (lookup d "utc_start") [
    | none ↦ false
    | some v ↦ start_holds (maybe p.py (utc_start p.py) v)
  ]
  start_of _ = false

  abbrev pub decoded_flight : FlightRow → Json → Decoded FlightRecord → Shown FlightRecord
  decoded_flight r j (raises e) = bad_flight r (not_decoded e)
  decoded_flight r j untyped = if start_of j then odd else bad_flight r no_offset
  decoded_flight r j (decoded f) =
      if known_start f.utc_start then shown f else bad_flight r no_offset

  abbrev pub parsed_flight : FlightRow → Option Json → Shown FlightRecord
  parsed_flight r none = bad_flight r not_json
  parsed_flight r (some j) = decoded_flight r j (record_from_json p.py j)

  -- `_flight`
  unfoldable pub shown_flight : FlightRow → Shown FlightRecord
  unfolding record_from_json
  shown_flight r = parsed_flight r (p.lib.loads r.record_text)

  abbrev pub shown_flights : List FlightRow → Shown (List FlightRecord)
  shown_flights [] = shown []
  shown_flights (r ∷ rs) = and_then (shown_flight r) (shown_flights rs)

  -- ORDER BY utc_start IS NULL, utc_start, log_ref
  abbrev pub start_before : Option String → Option String → String → String → Bool
  start_before (some s) (some t) a b = if str_eq s t then text_le a b else text_le s t
  start_before (some s) none a b = true
  start_before none (some t) a b = false
  start_before none none a b = text_le a b

  abbrev pub flight_before : FlightRow → FlightRow → Bool
  flight_before r s = start_before r.utc_start s.utc_start r.log_ref s.log_ref

  -- `flights`
  unfoldable pub flights : Db → String → Shown (List FlightRecord)
  unfolding shown_flight
  flights db key =
      shown_flights (sort_by flight_before (keep (λ r. str_eq r.aircraft_key key) db.flights))

-- `_source`; nothing where it raises
abbrev pub source_of : String → Option Source
source_of s =
    if str_eq s "px4" then some px4 else if str_eq s "ardupilot" then some ardupilot else none

abbrev pub sourced : AircraftRow → Option Source → Option Aircraft
sourced r none = none
sourced r (some s) = some (record {
  key = r.key;
  label = r.label;
  source = s;
  synthetic = not (r.synthetic == 0);
  licence = r.licence;
  attribution = r.attribution;
})

-- `_aircraft`
unfoldable pub shown_aircraft : AircraftRow → Option Aircraft
shown_aircraft r = sourced r (source_of r.source)

-- `get_aircraft`; `none` where there is no row, and `some none` where its source is unknown
unfoldable pub get_aircraft : Db → String → Option (Option Aircraft)
unfolding shown_aircraft
get_aircraft db key = elim (first (λ r. str_eq r.key key) db.aircraft) [
  | none ↦ none
  | some r ↦ some (shown_aircraft r)
]

-- ORDER BY synthetic, key
abbrev pub aircraft_before : AircraftRow → AircraftRow → Bool
aircraft_before r s =
    if r.synthetic == s.synthetic then text_le r.key s.key else ltb r.synthetic s.synthetic

abbrev pub all_aircraft : List AircraftRow → Option (List Aircraft)
all_aircraft [] = some []
all_aircraft (r ∷ rs) =
    let rest = all_aircraft rs in
    elim (shown_aircraft r) [
      | none ↦ none
      | some a ↦ elim rest [ none ↦ none | some bs ↦ some (a ∷ bs) ]
    ]

-- `aircraft`
unfoldable pub aircraft : Db → Option (List Aircraft)
unfolding shown_aircraft
aircraft db = all_aircraft (sort_by aircraft_before db.aircraft)
