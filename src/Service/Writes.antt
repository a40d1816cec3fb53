-- ===== src/Service/Writes.antt =====
-- service/store.py: what the store writes. A write is one transaction: it gives the new state of the file, or
-- the error it is rolled back on. The locks, the checks of the file and the kept answers are not modelled.
use uas_sustainment_workbenc.Base.{
  ℕ, pos, ◌+◌, ◌==◌, ltb, ◌≡◌, String, str_eq, Bool, true, false, not, ◌&&◌, ◌||◌, any, keep,
  Option, none, some, List, [], ◌∷◌, ◌++◌, length, if◌then◌else◌,
}
use uas_sustainment_workbenc.Base.Time.{DateTime, in_utc}
use uas_sustainment_workbenc.Base.Json.{Json}
use uas_sustainment_workbenc.Flight.Record.{Source, Maybe, known, unknown, FlightRecord}
use uas_sustainment_workbenc.Flight.Codec.{Python, source_text, record_to_json}
use uas_sustainment_workbenc.Ledger.Model.{Entry}
use uas_sustainment_workbenc.Ledger.Codec.{Details, kind_text, entry_to_json}
use uas_sustainment_workbenc.Service.Tables.{AircraftRow, EntryRow, FlightRow, Db}
use uas_sustainment_workbenc.Service.Journal.Hashes.{Library}
use uas_sustainment_workbenc.Service.Journal.Append.{
  LinkError, not_in_store, already_linked, no_json, Written, wrote, fails, append_link,
}
pub mod Rows
pub mod Runs
pub mod Heads

-- fleet/model.py
pub record Aircraft : Type 0 where
  pub key : String
  pub label : String
  pub source : Source
  pub synthetic : Bool
  pub licence : String
  pub attribution : String

-- What the store calls: the journal's library, the codecs' and json.dumps as flights and as entries are written.
pub record Platform : Type 0 where
  pub lib : Library
  pub py : Python
  pub values : Details
  pub flight_text : Json → String
  pub entry_text : Json → String

-- json.loads reads what json.dumps writes.
pub record IsPlatform (p : Platform) : Type 0 where
  pub reads_flight : (j : Json) → p.lib.loads (p.flight_text j) ≡ some j
  pub reads_entry : (j : Json) → p.lib.loads (p.entry_text j) ≡ some j

-- sqlite3.IntegrityError, `DuplicateFlight`, and the ValueErrors of the journal and of `add_fleet`.
pub data WriteError : Type 0 where
  integrity duplicate_flight unreadable_row not_seeded : WriteError

pub data Transaction {ℓ} (A : Type ℓ) : Type ℓ where
  stored : Db → A → Transaction A
  refused : WriteError → Transaction A

-- int(flag)
abbrev pub bit : Bool → ℕ
bit true = 1
bit false = 0

-- `_aircraft_row`
abbrev pub aircraft_row : Aircraft → AircraftRow
aircraft_row a = record {
  key = a.key;
  label = a.label;
  source = source_text a.source;
  synthetic = bit a.synthetic;
  licence = a.licence;
  attribution = a.attribution;
}

abbrev pub holds_aircraft : List AircraftRow → String → Bool
holds_aircraft rows key = any (λ r. str_eq r.key key) rows

-- INSERT OR REPLACE
abbrev pub replace_aircraft : List AircraftRow → AircraftRow → List AircraftRow
replace_aircraft rows r = keep (λ s. not (str_eq s.key r.key)) rows ++ r ∷ []

-- INSERT OR IGNORE
abbrev pub ignore_aircraft : List AircraftRow → AircraftRow → List AircraftRow
ignore_aircraft rows r = if holds_aircraft rows r.key then rows else rows ++ r ∷ []

-- `add_aircraft`
unfoldable pub add_aircraft : Db → Aircraft → Db
add_aircraft db a = record db { aircraft = replace_aircraft db.aircraft (aircraft_row a) }

-- `_aircraft_of`
abbrev pub aircraft_of : String → FlightRecord → Aircraft
aircraft_of key r = record {
  key = key;
  label = key;
  source = r.source;
  synthetic = r.synthetic;
  licence = r.licence;
  attribution = r.attribution;
}

-- The id SQLite gives a new row: one more than the greatest. No row is ever deleted, so it is also what
-- AUTOINCREMENT gives.
abbrev pub next_flight : List FlightRow → ℕ
next_flight [] = 1
next_flight (r ∷ rs) = let rest = next_flight rs in if ltb r.id rest then rest else r.id + 1

abbrev pub next_entry : List EntryRow → ℕ
next_entry [] = 1
next_entry (r ∷ rs) = let rest = next_entry rs in if ltb r.id rest then rest else r.id + 1

-- UNIQUE (aircraft_key, log_ref)
abbrev pub holds_flight : List FlightRow → String → String → Bool
holds_flight rows key log_ref =
    any (λ r. str_eq r.aircraft_key key && str_eq r.log_ref log_ref) rows

abbrev pub holds_entry : List EntryRow → ℕ → Bool
holds_entry rows n = any (λ r. r.id == n) rows

-- REFERENCES entries(id), looked at once the row is in.
abbrev pub refers_to_row : List EntryRow → Option ℕ → Bool
refers_to_row rows none = true
refers_to_row rows (some n) = holds_entry rows n

module _ (p : Platform) where
  -- is_known(utc_start) and its text
  abbrev pub utc_text : Maybe DateTime → Option String
  utc_text (known t) = some (p.py.isoformat t)
  utc_text (unknown r) = none

  unfoldable pub flight_row : ℕ → String → FlightRecord → FlightRow
  flight_row n key r = record {
    id = n;
    aircraft_key = key;
    log_ref = r.log_ref;
    synthetic = bit r.synthetic;
    utc_start = utc_text r.utc_start;
    record_text = p.flight_text (record_to_json p.py r);
  }

  abbrev pub flight_linked : Written String → Transaction String
  flight_linked (wrote db hash) = stored db hash
  flight_linked (fails not_in_store) = refused duplicate_flight
  flight_linked (fails already_linked) = refused duplicate_flight
  flight_linked (fails no_json) = refused unreadable_row

  abbrev pub with_aircraft : Db → Option Aircraft → Db
  with_aircraft db none = db
  with_aircraft db (some a) = record db { aircraft = ignore_aircraft db.aircraft (aircraft_row a) }

  -- The flight's row, and its link; every IntegrityError is told as a flight already stored.
  unfoldable pub insert_flight : Db → String → FlightRecord → Transaction String
  unfolding flight_row append_link
  insert_flight db key r =
      if holds_flight db.flights key r.log_ref
      then refused duplicate_flight
      else if not (holds_aircraft db.aircraft key)
      then refused duplicate_flight
      else let n = next_flight db.flights in
        flight_linked (
          append_link p.lib (record db { flights = db.flights ++ flight_row n key r ∷ [] }) "flight"
            (some n) none)

  -- `_add_flight`, and the journal's new head
  unfoldable pub add_flight_row : Db → String → FlightRecord → Option Aircraft → Transaction String
  unfolding insert_flight
  add_flight_row db key r a = insert_flight (with_aircraft db a) key r

  -- `add_flight`
  unfoldable pub add_flight : Db → String → FlightRecord → Transaction String
  unfolding add_flight_row
  add_flight db key r = add_flight_row db key r none

  -- `add_log`
  unfoldable pub add_log : Db → String → FlightRecord → Transaction String
  unfolding add_flight_row
  add_log db key r = add_flight_row db key r (some (aircraft_of key r))

  -- The entry with its id, its times in UTC.
  unfoldable pub stored_entry : ℕ → Entry → Entry
  unfolding in_utc
  stored_entry n e = record e {
    id = some n;
    occurred_utc = in_utc e.occurred_utc;
    recorded_utc = in_utc e.recorded_utc;
  }

  -- The row once its record is written into it.
  unfoldable pub entry_row : ℕ → Entry → EntryRow
  unfolding stored_entry
  entry_row n e =
      let s = stored_entry n e in
      record {
        id = n;
        subject = s.subject;
        kind = kind_text s.kind;
        occurred_utc = p.py.isoformat s.occurred_utc;
        recorded_utc = p.py.isoformat s.recorded_utc;
        synthetic = bit s.synthetic;
        supersedes = s.supersedes;
        record_text = p.entry_text (entry_to_json p.py p.values s);
      }

  abbrev pub entry_linked : Entry → Written String → Transaction (Entry × String)
  entry_linked e (wrote db hash) = stored db (e, hash)
  entry_linked e (fails not_in_store) = refused integrity
  entry_linked e (fails already_linked) = refused integrity
  entry_linked e (fails no_json) = refused unreadable_row

  -- `append_entry`, and the journal's new head
  unfoldable pub append_entry_row : Db → Entry → Transaction (Entry × String)
  unfolding entry_row stored_entry append_link
  append_entry_row db e =
      let n = next_entry db.entries in
      let rows = db.entries ++ entry_row n e ∷ [] in
      if not (refers_to_row rows e.supersedes)
      then refused integrity
      else entry_linked (stored_entry n e)
          (append_link p.lib (record db { entries = rows }) "entry" (some n) none)

-- `holds`: how many aircraft, flights and entries
unfoldable pub row_counts : Db → ℕ × ℕ × ℕ
row_counts db = (length db.aircraft, length db.flights, length db.entries)
