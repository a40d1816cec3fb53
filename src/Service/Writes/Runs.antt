-- ===== src/Service/Writes/Runs.antt =====
-- Runs of the store's writes, and what a journal that verifies keeps through them.
use uas_sustainment_workbenc.Base.{
  ℕ, ◌≡◌, refl, String, Bool, true, false, not, ◌||◌, Option, none, some, List, [], ◌∷◌, ◌++◌,
  arith, if◌then◌else◌,
}
use uas_sustainment_workbenc.Base.Json.{Json}
use uas_sustainment_workbenc.Flight.Record.{FlightRecord}
use uas_sustainment_workbenc.Ledger.Model.{Entry}
use uas_sustainment_workbenc.Service.Tables.{AircraftRow, Db}
use uas_sustainment_workbenc.Service.Journal.Hashes.{Library}
use uas_sustainment_workbenc.Service.Journal.Contents.{row_content}
use uas_sustainment_workbenc.Service.Journal.Verify.{start, unjournaled_row, has_some, verify}
use uas_sustainment_workbenc.Service.Journal.Append.{wrote, append_link}
use uas_sustainment_workbenc.Service.Journal.Walked.{Keeps-rows, walk-kept}
use uas_sustainment_workbenc.Service.Journal.Growth.{
  IsIntact, Adds, append_link-wrote, linked-IsIntact,
}
use uas_sustainment_workbenc.Service.Writes.{
  Aircraft, Platform, IsPlatform, Transaction, stored, refused, integrity, duplicate_flight,
  add_aircraft, add_flight, add_log, add_flight_row, insert_flight, append_entry_row, flight_row,
  entry_row, next_flight, next_entry, with_aircraft, aircraft_of, holds_flight, holds_aircraft,
  refers_to_row, flight_linked, entry_linked, stored_entry,
}
use uas_sustainment_workbenc.Service.Writes.Rows.{entry-Adds, flight-Adds}

-- A write of the store.
pub data Write : Type 0 where
  put_aircraft : Aircraft → Write
  put_flight put_log : String → FlightRecord → Write
  put_entry : Entry → Write

-- A write with the journal's new head, if it linked a row.
abbrev pub after_write {ℓ} :
    {A : Type ℓ} → (A → Option String) → Transaction A → Transaction (Option String)
after_write f (stored db a) = stored db (f a)
after_write f (refused e) = refused e

module _ (p : Platform) where
  unfoldable pub write : Db → Write → Transaction (Option String)
  unfolding add_aircraft add_flight add_log append_entry_row
  write db (put_aircraft a) = stored (add_aircraft db a) none
  write db (put_flight key r) = after_write some (add_flight p db key r)
  write db (put_log key r) = after_write some (add_log p db key r)
  write db (put_entry e) = after_write (λ r. some r.1) (append_entry_row p db e)

  -- What the file holds after a write that may be refused: the transaction is rolled back.
  abbrev pub left_by : Db → Transaction (Option String) → Db
  left_by db (stored db' u) = db'
  left_by db (refused e) = db

  -- The writes one after the other, each a transaction of its own.
  unfoldable pub run : Db → List Write → Db
  unfolding write
  run db [] = db
  run db (w ∷ ws) = run (left_by db (write db w)) ws

-- A journal that verifies, with the head that was given in it.
pub record IsKept (lib : Library) (head : Option String) (db : Db) : Type 0 where
  pub intact : IsIntact lib head db
  pub given : has_some head ≡ true → has_some intact.last.given_at ≡ true

pub IsKept-ok :
    (lib : Library) (head : Option String) (db : Db)
    → IsKept lib head db
    → (verify lib db head).ok ≡ true
unfolding verify
IsKept-ok lib head db s = rw (s.intact.walked, s.intact.journaled) (known (has_some head) _ s.given)
  where
    known : (a b : Bool) → (a ≡ true → b ≡ true) → (not a || b) ≡ true
    known true b h = h refl
    known false b h = refl

module _ (p : Platform) (laws : IsPlatform p) (head : Option String) where
  -- A table the journal does not link can change.
  aircraft-IsKept :
      (db : Db) (rows : List AircraftRow)
      → IsKept p.lib head db
      → IsKept p.lib head (record db { aircraft = rows })
  unfolding row_content unjournaled_row
  aircraft-IsKept db rows s = record {
    intact = record {
      last = s.intact.last;
      walked =
          walk-kept p.lib head db (record db { aircraft = rows }) (start head) s.intact.last
            db.links (Keeps-rows p.lib db (record db { aircraft = rows }) (λ k m i h. h))
            s.intact.walked;
      journaled = s.intact.journaled;
    };
    given = s.given;
  }

  -- A row with its link keeps the journal.
  Adds-IsKept :
      (d e : Db) (kind : String) (n : ℕ) (j : Json)
      → Adds p.lib d e kind n j
      → IsKept p.lib head d
      → (h : String) × (db : Db) × (append_link p.lib e kind (some n) none ≡ wrote db h)
        × IsKept p.lib head db
  Adds-IsKept d e kind n j a s =
      let (intact, _, given) = linked-IsIntact p.lib head d e kind n j a s.intact in
      (
        _,
        _,
        append_link-wrote p.lib head d e kind n j a s.intact,
        record { intact = intact; given = λ known. given (s.given known) },
      )

  flight-IsKept :
      (db : Db) (key : String) (r : FlightRecord)
      → IsKept p.lib head db
      → IsKept p.lib head (left_by p db (after_write some (insert_flight p db key r)))
  unfolding insert_flight flight_row
  flight-IsKept db key r s =
      of_tests (holds_flight db.flights key r.log_ref) (not (holds_aircraft db.aircraft key))
    where
      of_tests :
          (a b : Bool)
          → IsKept p.lib head (
              left_by p db (
                after_write some (
                  if a
                  then refused duplicate_flight
                  else if b
                  then refused duplicate_flight
                  else flight_linked p (
                      append_link p.lib
                        (record db {
                          flights = db.flights ++ flight_row p (next_flight db.flights) key r ∷ [];
                        })
                        "flight"
                        (some (next_flight db.flights))
                        none))))
      of_tests true b = s
      of_tests false true = s
      of_tests false false =
          let (h, db', wrote_it, kept) =
            Adds-IsKept db _ "flight" _ _
              (flight-Adds p.lib db (flight_row p (next_flight db.flights) key r) _ (omega arith)
                (laws.reads_flight _))
              s in
          rw wrote_it kept

  entry-IsKept :
      (db : Db) (e : Entry)
      → IsKept p.lib head db
      → IsKept p.lib head (left_by p db (after_write (λ r. some r.1) (append_entry_row p db e)))
  unfolding append_entry_row entry_row
  entry-IsKept db e s =
      of_test (
        not (refers_to_row (db.entries ++ entry_row p (next_entry db.entries) e ∷ []) e.supersedes))
    where
      of_test :
          (a : Bool)
          → IsKept p.lib head (
              left_by p db (
                after_write
                  (λ r. some r.1)
                  (if a
                    then refused integrity
                    else entry_linked p (stored_entry p (next_entry db.entries) e) (
                        append_link p.lib
                          (record db {
                            entries = db.entries ++ entry_row p (next_entry db.entries) e ∷ [];
                          })
                          "entry"
                          (some (next_entry db.entries))
                          none))))
      of_test true = s
      of_test false =
          let (h, db', wrote_it, kept) =
            Adds-IsKept db _ "entry" _ _
              (entry-Adds p.lib db (entry_row p (next_entry db.entries) e) _ (omega arith)
                (laws.reads_entry _))
              s in
          rw wrote_it kept

  log-IsKept :
      (db : Db) (key : String) (r : FlightRecord)
      → IsKept p.lib head db
      → IsKept p.lib head (left_by p db (after_write some (add_log p db key r)))
  unfolding add_log add_flight_row
  log-IsKept db key r s =
      kept_or_back (insert_flight p (with_aircraft p db (some (aircraft_of key r))) key r) _
        (flight-IsKept _ key r (aircraft-IsKept db _ s))
    where
      kept_or_back :
          (o : Transaction String) (d : Db)
          → IsKept p.lib head (left_by p d (after_write some o))
          → IsKept p.lib head (left_by p db (after_write some o))
      kept_or_back (stored x h) d t = t
      kept_or_back (refused x) d t = s

  write-IsKept :
      (db : Db) (w : Write) → IsKept p.lib head db → IsKept p.lib head (left_by p db (write p db w))
  unfolding write add_aircraft add_flight add_flight_row
  write-IsKept db (put_aircraft a) s = aircraft-IsKept db _ s
  write-IsKept db (put_flight key r) s = flight-IsKept db key r s
  write-IsKept db (put_log key r) s = log-IsKept db key r s
  write-IsKept db (put_entry e) s = entry-IsKept db e s

  pub run-IsKept :
      (db : Db) (ws : List Write) → IsKept p.lib head db → IsKept p.lib head (run p db ws)
  unfolding run
  run-IsKept db [] s = s
  run-IsKept db (w ∷ ws) s = run-IsKept (left_by p db (write p db w)) ws (write-IsKept db w s)
