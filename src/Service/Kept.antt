-- ===== src/Service/Kept.antt =====
-- service/store.py `_after_commit`: the verification that is kept moves on with the store's own writes, and
-- nothing is walked.
pub mod Moves
use uas_sustainment_workbenc.Base.{
  ℕ, ◌+◌, ◌-◌, ◌≡◌, refl, sym, ap, ◌∙◌, String, Bool, true, false, not, Option, none, some, List,
  [], ◌∷◌, ◌++◌, arith, if◌then◌else◌,
}
use mathlib.Core.Path.{subst}
use uas_sustainment_workbenc.Base.Json.{Json}
use uas_sustainment_workbenc.Flight.Record.{FlightRecord}
use uas_sustainment_workbenc.Ledger.Model.{Entry}
use uas_sustainment_workbenc.Service.Tables.{AircraftRow, Link, Db}
use uas_sustainment_workbenc.Service.Journal.Hashes.{Library}
use uas_sustainment_workbenc.Service.Journal.Contents.{row_content}
use uas_sustainment_workbenc.Service.Journal.Verify.{
  Break, Migration, Walk, after, walk, start, Verification, verify, unjournaled_row,
}
use uas_sustainment_workbenc.Service.Journal.Append.{next_link, append_link}
use uas_sustainment_workbenc.Service.Journal.Chain.{walk-step}
use uas_sustainment_workbenc.Service.Journal.Walked.{Keeps-rows, walk-kept}
use uas_sustainment_workbenc.Service.Journal.Growth.{
  IsIntact, Adds, append_link-wrote, linked-IsIntact, link-seq, link, linked,
}
use uas_sustainment_workbenc.Service.Writes.{
  Platform, IsPlatform, Transaction, stored, refused, integrity, duplicate_flight, add_aircraft,
  add_flight, add_log, add_flight_row, insert_flight, append_entry_row, flight_row, entry_row,
  next_flight, next_entry, with_aircraft, aircraft_of, aircraft_row, ignore_aircraft, holds_flight,
  holds_aircraft, refers_to_row, flight_linked, entry_linked, stored_entry,
}
use uas_sustainment_workbenc.Service.Writes.Rows.{entry-Adds, flight-Adds}
use uas_sustainment_workbenc.Service.Writes.Runs.{
  Write, put_aircraft, put_flight, put_log, put_entry, after_write, write,
}
use uas_sustainment_workbenc.Service.Writes.Heads.{ok-IsIntact}

-- The kept verification after an own commit that nothing came between: `head` is the link's hash, if the write
-- linked a row.
unfoldable pub moved_on : Option Verification → Option String → Option Verification
moved_on none head = none
moved_on (some v) none = some v
moved_on (some v) (some head) =
    if v.ok
    then some (record {
      ok = true;
      head = head;
      length = v.length + 1;
      broken = none;
      given = none;
      given_at = none;
      migration = v.migration;
    })
    else none
