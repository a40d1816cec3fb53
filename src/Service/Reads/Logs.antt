-- ===== src/Service/Reads/Logs.antt =====
-- A log that is stored is read back, with its aircraft.
use uas_sustainment_workbenc.Base.{
  ℕ, ◌≡◌, refl, ap, ◌∙◌, String, eq_iff, Bool, true, false, any-append, none, some, List, [], ◌∷◌,
  ◌++◌, arith, if◌then◌else◌,
}
use uas_sustainment_workbenc.Flight.Record.{FlightRecord, Maybe, known, unknown}
use uas_sustainment_workbenc.Flight.Codec.{IsPython, record_to_json}
use uas_sustainment_workbenc.Flight.Codec.RoundTrip.{
  in_words, worded, record_from_json-record_to_json,
}
use uas_sustainment_workbenc.Base.Time.{DateTime}
use uas_sustainment_workbenc.Service.Tables.{AircraftRow, Db}
use uas_sustainment_workbenc.Service.Journal.Verify.{verify}
use uas_sustainment_workbenc.Service.Journal.Append.{wrote, append_link}
use uas_sustainment_workbenc.Service.Journal.Growth.{append_link-wrote}
use uas_sustainment_workbenc.Service.Writes.{
  Platform, IsPlatform, stored, add_log, add_flight_row, insert_flight, flight_row, next_flight,
  aircraft_of, aircraft_row, ignore_aircraft, holds_aircraft, holds_flight,
}
use uas_sustainment_workbenc.Service.Writes.Rows.{flight-Adds}
use uas_sustainment_workbenc.Service.Writes.Heads.{ok-IsIntact}
use uas_sustainment_workbenc.Service.Kept.Moves.{aircraft-IsIntact}
use uas_sustainment_workbenc.Service.Reads.{
  shown, shown_flight, parsed_flight, decoded_flight, known_start,
}

-- The aircraft of a log is held once the log's row may name it.
ignore_aircraft-holds :
    (rows : List AircraftRow) (r : AircraftRow)
    → holds_aircraft (ignore_aircraft rows r) r.key ≡ true
ignore_aircraft-holds rows r = of_test (holds_aircraft rows r.key) refl
  where
    of_test :
        (b : Bool)
        → holds_aircraft rows r.key ≡ b
        → holds_aircraft (if b then rows else rows ++ r ∷ []) r.key ≡ true
    of_test true q = q
    of_test false q = any-append _ rows (r ∷ []) ∙ rw (q, (eq_iff r.key r.key).1 refl) refl

module _ (p : Platform) (laws : IsPlatform p) (codec : IsPython p.py) where
  known_start-worded :
      (m : Maybe DateTime) → known_start p m ≡ true → known_start p (worded p.py m) ≡ true
  known_start-worded (known t) h = h
  known_start-worded (unknown r) h = refl

  shown_flight-flight_row :
      (n : ℕ) (key : String) (r : FlightRecord)
      → known_start p r.utc_start ≡ true
      → shown_flight p (flight_row p n key r) ≡ shown (in_words p.py r)
  unfolding shown_flight flight_row
  shown_flight-flight_row n key r h =
      ap (parsed_flight p (flight_row p n key r)) (laws.reads_flight _)
      ∙ ap (decoded_flight p (flight_row p n key r) (record_to_json p.py r))
          (record_from_json-record_to_json p.py codec r)
      ∙ rw (known_start-worded r.utc_start h) refl

  inserted :
      (db db' : Db) (key : String) (r : FlightRecord) (h : String)
      → holds_flight db.flights key r.log_ref ≡ false
      → holds_aircraft db.aircraft key ≡ true
      → append_link p.lib
          (record db { flights = db.flights ++ flight_row p (next_flight db.flights) key r ∷ [] })
          "flight"
          (some (next_flight db.flights))
          none
        ≡ wrote db' h
      → insert_flight p db key r ≡ stored db' h
  unfolding insert_flight
  inserted db db' key r h new held q = rw (new, held, q) refl

  -- A log the store does not hold, of an aircraft it may not hold either, is stored where its journal
  -- verifies: its row is the last of the table, its aircraft is held, and the row is read back as the record,
  -- the reasons of what is not known as their words.
  pub add_log-stored :
      (db : Db) (key : String) (r : FlightRecord)
      → (verify p.lib db none).ok ≡ true
      → holds_flight db.flights key r.log_ref ≡ false
      → known_start p r.utc_start ≡ true
      → (db' : Db) × (h : String) × (add_log p db key r ≡ stored db' h)
        × (db'.flights ≡ db.flights ++ flight_row p (next_flight db.flights) key r ∷ [])
        × (holds_aircraft db'.aircraft key ≡ true)
        × (shown_flight p (flight_row p (next_flight db.flights) key r) ≡ shown (in_words p.py r))
  unfolding add_log add_flight_row flight_row
  add_log-stored db key r ok new start =
      let rows = ignore_aircraft db.aircraft (aircraft_row (aircraft_of key r)) in
      let held = ignore_aircraft-holds db.aircraft (aircraft_row (aircraft_of key r)) in
      let intact = aircraft-IsIntact p laws db rows (ok-IsIntact p.lib db ok) in
      let wrote_it =
        append_link-wrote p.lib none (record db { aircraft = rows }) _ "flight"
          (next_flight db.flights) _
          (flight-Adds p.lib (record db { aircraft = rows })
            (flight_row p (next_flight db.flights) key r) _ (omega arith) (laws.reads_flight _))
          intact in
      (
        _,
        _,
        inserted (record db { aircraft = rows }) _ key r _ new held wrote_it,
        refl,
        held,
        shown_flight-flight_row (next_flight db.flights) key r start,
      )
