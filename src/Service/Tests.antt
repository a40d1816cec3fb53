-- ===== src/Service/Tests.antt =====
-- Runs of the store's definitions, and the theorems at concrete inputs.
use uas_sustainment_workbenc.Base.{
  ℕ, ℤ, pos, negsuc, ◌≡◌, refl, sym, ap, ◌∙◌, String, Bool, true, false, ◌⊎◌, inl, inr, Option,
  none, some, List, [], ◌∷◌, ◌++◌,
}
use uas_sustainment_workbenc.Base.Time.{DateTime}
use uas_sustainment_workbenc.Base.Decode.{decoded}
use uas_sustainment_workbenc.Flight.Record.{
  px4, ardupilot, said, known, unknown, FaultEvent, LifetimeCounter, FlightRecord,
}
use uas_sustainment_workbenc.Flight.Codec.{record_to_json, record_from_json}
use uas_sustainment_workbenc.Flight.Codec.RoundTrip.{in_words, record_from_json-record_to_json}
use uas_sustainment_workbenc.Ledger.Model.{Entry, work_order_open, work_order_close, text}
use uas_sustainment_workbenc.Ledger.Store.{Store, append_entry, next_entry_id}
use uas_sustainment_workbenc.Ledger.Codec.{entry_to_json, entry_from_json}
use uas_sustainment_workbenc.Ledger.Codec.RoundTrip.{entry_from_json-entry_to_json}
use uas_sustainment_workbenc.Service.Tables.{AircraftRow, Db}
use uas_sustainment_workbenc.Service.Journal.Hashes.{genesis}
use uas_sustainment_workbenc.Service.Journal.Verify.{verify}
use uas_sustainment_workbenc.Service.Journal.History.{HashBroken}
use uas_sustainment_workbenc.Service.Journal.Evidence.{tell, same_head}
use uas_sustainment_workbenc.Service.Journal.Growth.{IsIntact-broken}
use uas_sustainment_workbenc.Service.Writes.{
  Aircraft, WriteError, Transaction, stored, refused, append_entry_row, stored_entry, next_entry,
  entry_row,
}
use uas_sustainment_workbenc.Service.Writes.Runs.{
  Write, put_aircraft, put_flight, put_log, put_entry, after_write, write, run,
}
use uas_sustainment_workbenc.Service.Writes.Heads.{ok-IsIntact, run-verifies, run-keeps_head}
use uas_sustainment_workbenc.Service.Kept.{moved_on}
use uas_sustainment_workbenc.Service.Kept.Moves.{moved_on-verify}
use uas_sustainment_workbenc.Service.Reads.{entries}
use uas_sustainment_workbenc.Service.Reads.Refinement.{Shows, written, append_entry_row-Shows}
use uas_sustainment_workbenc.Service.Journal.Contents.{row_content}
use uas_sustainment_workbenc.Service.Journal.Append.{append_link, linked_content}
use uas_sustainment_workbenc.Service.Tests.Encoding.{text_json, json_text, decode_from}
use uas_sustainment_workbenc.Service.Reads.{shown, shown_flight}
use uas_sustainment_workbenc.Service.Reads.Logs.{add_log-stored}
use uas_sustainment_workbenc.Service.Writes.{add_log, flight_row, holds_aircraft}
use uas_sustainment_workbenc.Service.Tests.Concrete.{
  test_library, test_library-IsLibrary, test_python, test_python-IsPython, test_details,
  test_platform, test_platform-IsPlatform,
}
pub mod Encoding
pub mod Concrete

abbrev noon : DateTime
noon = record { utc = 63900000000000000; offset = some (pos 7200000000) }

abbrev log_7 : FlightRecord
log_7 = record {
  source = ardupilot;
  log_ref = "log-7";
  licence = "CC0-1.0";
  attribution = "test";
  firmware = "4.5";
  log_span_s = pos 610000;
  aircraft_key = known "UAS-1";
  utc_start = known noon;
  flight_time_s = known (pos 600000);
  arm_cycles = known (pos 1);
  landings = unknown (said "no landing detector");
  battery_mah = known (pos 1200500);
  battery_wh = unknown (said "no voltage");
  fault_events = known (record { t_s = pos 3000; kind = "crash"; detail = "hit" } ∷ []);
  boot_count = known (pos 4);
  lifetime =
      known (record { at_boot_s = pos 0; last_seen_s = pos 600000; last_seen_at_s = pos 605000 });
  synthetic = false;
}

abbrev opened_order : Entry
opened_order = record {
  id = none;
  subject = "UAS-1";
  kind = work_order_open;
  occurred_utc = noon;
  recorded_utc = noon;
  entered_by = "A. Tester";
  statement = "motor 3 rough";
  details = ("state", text "open") ∷ [];
  supersedes = none;
  reason = none;
  synthetic = false;
}

abbrev closed : Entry
closed = record opened_order { kind = work_order_close; details = ("work_id", text "1") ∷ [] }

abbrev uas_1 : Aircraft
uas_1 = record {
  key = "UAS-1";
  label = "one";
  source = ardupilot;
  synthetic = false;
  licence = "CC0-1.0";
  attribution = "test";
}

abbrev empty_db : Db
empty_db = record { aircraft = []; flights = []; entries = []; links = []; version = 1 }

abbrev writes : List Write
writes =
    put_log "UAS-1" log_7 ∷ put_entry opened_order ∷ put_log "UAS-1" log_7 ∷ put_entry closed ∷ []

empty_db-ok : (verify test_library empty_db none).ok ≡ true
unfolding verify
empty_db-ok = refl

record_from_json-record_to_json_example :
    record_from_json test_python (record_to_json test_python log_7)
    ≡ decoded (in_words test_python log_7)
record_from_json-record_to_json_example =
    record_from_json-record_to_json test_python test_python-IsPython log_7

entry_from_json-entry_to_json_example :
    entry_from_json test_python test_details (entry_to_json test_python test_details opened_order)
    ≡ decoded opened_order
entry_from_json-entry_to_json_example =
    entry_from_json-entry_to_json test_python test_python-IsPython test_details opened_order refl tt

run-verifies_example : (verify test_library (run test_platform empty_db writes) none).ok ≡ true
run-verifies_example =
    run-verifies test_platform test_platform-IsPlatform empty_db writes empty_db-ok

run-keeps_head_example :
    (verify test_library
      (run test_platform empty_db writes)
      (some (verify test_library empty_db none).head)).ok
    ≡ true
run-keeps_head_example =
    run-keeps_head test_platform test_platform-IsPlatform empty_db writes empty_db-ok

abbrev ledger : Store
ledger = record { aircraft = []; entries = []; flights = λ key. [] }

empty_db-Shows : Shows test_platform empty_db ledger
unfolding entries next_entry_id
empty_db-Shows = record { reads = refl; next = refl }

append_entry_row-Shows_example :
    (db' : Db) × (h : String) × (append_entry_row test_platform empty_db opened_order
      ≡ stored db' ((append_entry ledger opened_order).1, h))
    × Shows test_platform db' (append_entry ledger opened_order).0
append_entry_row-Shows_example =
    append_entry_row-Shows test_platform test_platform-IsPlatform test_python-IsPython empty_db
      ledger opened_order empty_db-Shows empty_db-ok
      (record { named = refl; plain = tt; occurred = refl; recorded = refl }) refl

add_log-stored_example :
    (db' : Db) × (h : String) × (add_log test_platform empty_db "UAS-1" log_7 ≡ stored db' h)
    × (db'.flights ≡ flight_row test_platform 1 "UAS-1" log_7 ∷ [])
    × (holds_aircraft db'.aircraft "UAS-1" ≡ true)
    × (shown_flight test_platform (flight_row test_platform 1 "UAS-1" log_7)
        ≡ shown (in_words test_python log_7))
add_log-stored_example =
    add_log-stored test_platform test_platform-IsPlatform test_python-IsPython empty_db "UAS-1"
      log_7 empty_db-ok refl refl

-- Two stores with one journal.
abbrev one_row : Db
one_row = run test_platform empty_db (put_entry opened_order ∷ [])

abbrev other_row : Db
other_row = record one_row { aircraft = [] }

one_row_sound : (verify test_library one_row none).broken ≡ none
one_row_sound = IsIntact-broken test_library none one_row (
    ok-IsIntact test_library one_row (
      run-verifies test_platform test_platform-IsPlatform empty_db (put_entry opened_order ∷ [])
        empty_db-ok))

other_row_sound : (verify test_library other_row none).broken ≡ none
unfolding run write append_entry_row append_link text_json json_text verify
other_row_sound = one_row_sound

same_head_example :
    (tell test_library one_row one_row.links [] ≡ tell test_library other_row other_row.links [])
    ⊎ HashBroken test_library
unfolding run text_json json_text verify
same_head_example =
    same_head test_library test_library-IsLibrary one_row other_row one_row_sound other_row_sound
      refl

-- The write of an entry.
after_entry :
    (db' : Db) × (h : String) × (append_entry_row test_platform empty_db opened_order
      ≡ stored db' (stored_entry test_platform (next_entry empty_db.entries) opened_order, h))
    × (db'.entries ≡ entry_row test_platform (next_entry empty_db.entries) opened_order ∷ [])
after_entry =
    written test_platform test_platform-IsPlatform test_python-IsPython empty_db opened_order
      empty_db-ok refl

after_entry-write :
    write test_platform empty_db (put_entry opened_order)
    ≡ stored after_entry.0 (some after_entry.1)
unfolding write
after_entry-write = ap (after_write (λ r. some r.1)) after_entry.2

moved_on-verify_example :
    moved_on (some (verify test_library empty_db none)) (some after_entry.1)
    ≡ some (verify test_library after_entry.0 none)
moved_on-verify_example =
    moved_on-verify test_platform test_platform-IsPlatform empty_db after_entry.0
      (put_entry opened_order) (some after_entry.1) empty_db-ok after_entry-write
