-- ===== src/Service/Kept/Moves.antt =====
-- The verification that is moved on is the one a walk gives.
use uas_sustainment_workbenc.Base.{
  ℕ, ◌+◌, ◌-◌, ◌≡◌, refl, sym, ap, ◌∙◌, String, Bool, true, false, not, Option, none, some, List,
  [], ◌∷◌, ◌++◌, arith, if◌then◌else◌,
}
use mathlib.Core.Path.{subst}
use uas_sustainment_workbenc.Base.Json.{Json}
use uas_sustainment_workbenc.Flight.Record.{FlightRecord}
use uas_sustainment_workbenc.Ledger.Model.{Entry}
use uas_sustainment_workbenc.Service.Tables.{AircraftRow, Link, Db}
use uas_sustainment_workbenc.Service.Journal.Hashes.{Library}
use uas_sustainment_workbenc.Service.Journal.Contents.{row_content}
use uas_sustainment_workbenc.Service.Journal.Verify.{
  Break, Migration, Walk, after, walk, start, Verification, verify, unjournaled_row,
}
use uas_sustainment_workbenc.Service.Journal.Append.{next_link, append_link}
use uas_sustainment_workbenc.Service.Journal.Chain.{walk-step}
use uas_sustainment_workbenc.Service.Journal.Walked.{Keeps-rows, walk-kept}
use uas_sustainment_workbenc.Service.Journal.Growth.{
  IsIntact, Adds, append_link-wrote, linked-IsIntact, link-seq, link, linked,
}
use uas_sustainment_workbenc.Service.Writes.{
  Platform, IsPlatform, Transaction, stored, refused, integrity, duplicate_flight, add_aircraft,
  add_flight, add_log, add_flight_row, insert_flight, append_entry_row, flight_row, entry_row,
  next_flight, next_entry, with_aircraft, aircraft_of, aircraft_row, ignore_aircraft, holds_flight,
  holds_aircraft, refers_to_row, flight_linked, entry_linked, stored_entry,
}
use uas_sustainment_workbenc.Service.Writes.Rows.{entry-Adds, flight-Adds}
use uas_sustainment_workbenc.Service.Writes.Runs.{
  Write, put_aircraft, put_flight, put_log, put_entry, after_write, write,
}
use uas_sustainment_workbenc.Service.Writes.Heads.{ok-IsIntact}
use uas_sustainment_workbenc.Service.Kept.{moved_on}

-- What `verify` says of a journal that is intact.
abbrev intact_verification : Walk → Verification
intact_verification w = record {
  ok = true;
  head = w.prev;
  length = w.expected - 1;
  broken = none;
  given = none;
  given_at = w.given_at;
  migration = w.migration;
}

verify_intact :
    (lib : Library) (db : Db) (s : IsIntact lib none db)
    → verify lib db none ≡ intact_verification s.last
unfolding verify
verify_intact lib db s = rw (s.walked, s.journaled) refl

walk-not_given :
    (lib : Library) (db : Db) (w w' : Walk) (ls : List Link)
    → walk lib none db w ls ≡ (w', none)
    → w.given_at ≡ none
    → w'.given_at ≡ none
unfolding walk
walk-not_given lib db w w' [] h g = sym (ap (λ (p : Walk × Option Break). p.0.given_at) h) ∙ g
walk-not_given lib db w w' (l ∷ ls) h g =
    let (w1, s, rest) = walk-step lib none db w l ls w' h in
    walk-not_given lib db w1 w' ls rest (ap (λ v. v.given_at) s.next ∙ g)

same_parts :
    {h : String} {m n : ℕ} {f g : Option ℕ} {x y : Option Migration}
    → m ≡ n
    → f ≡ g
    → x ≡ y
    → ◌≡◌ {A = Verification}
        (record {
          ok = true;
          head = h;
          length = m;
          broken = none;
          given = none;
          given_at = f;
          migration = x;
        })
        (record {
          ok = true;
          head = h;
          length = n;
          broken = none;
          given = none;
          given_at = g;
          migration = y;
        })
same_parts p q r = cc

module _ (lib : Library) (d e : Db) (kind : String) (n : ℕ) (j : Json) (a : Adds lib d e kind n j)
    (s : IsIntact lib none d) where
  -- The verification with one link more.
  moved_on-Adds :
      moved_on (some (verify lib d none)) (some (link lib none d e kind n j a s).link_hash)
      ≡ some (verify lib (linked lib none d e kind n j a s) none)
  unfolding moved_on next_link
  moved_on-Adds =
      let (t, last, _) = linked-IsIntact lib none d e kind n j a s in
      let l = link lib none d e kind n j a s in
      ap (λ v. moved_on (some v) (some l.link_hash)) (verify_intact lib d s)
      ∙ ap some (
          same_parts (length_of _ _ (link-seq lib none d e kind n j a s))
            (sym (walk-not_given lib d (start none) s.last d.links s.walked refl)) same_migration)
      ∙ ap (λ w. some (intact_verification w)) (sym last)
      ∙ ap some (sym (verify_intact lib (linked lib none d e kind n j a s) t))
    where
      length_of : (m k : ℕ) → k ≡ m + 1 → m + 1 ≡ k + 1 - 1
      length_of m k h = omega (arith, h)

      same_migration :
          s.last.migration ≡ (after lib none s.last (link lib none d e kind n j a s) none).migration
      same_migration = rw a.ordinary refl

-- What a write leaves of the kept verification.
abbrev Moves : Library → Db → Transaction (Option String) → Type 0
Moves lib db (stored db' head) =
    moved_on (some (verify lib db none)) head ≡ some (verify lib db' none)
Moves lib db (refused e) = Unit

module _ (p : Platform) (laws : IsPlatform p) where
  verify-aircraft :
      (db : Db) (rows : List AircraftRow)
      → IsIntact p.lib none db
      → verify p.lib (record db { aircraft = rows }) none ≡ verify p.lib db none
  unfolding row_content unjournaled_row
  verify-aircraft db rows s =
      verify_intact p.lib (record db { aircraft = rows })
        (record {
          last = s.last;
          walked =
              walk-kept p.lib none db (record db { aircraft = rows }) (start none) s.last db.links
                (Keeps-rows p.lib db (record db { aircraft = rows }) (λ k m i h. h)) s.walked;
          journaled = s.journaled;
        })
      ∙ sym (verify_intact p.lib db s)

  flight-Moves :
      (db : Db) (key : String) (r : FlightRecord)
      → IsIntact p.lib none db
      → Moves p.lib db (after_write some (insert_flight p db key r))
  unfolding insert_flight flight_row
  flight-Moves db key r s =
      of_tests (holds_flight db.flights key r.log_ref) (not (holds_aircraft db.aircraft key))
    where
      of_tests :
          (a b : Bool)
          → Moves p.lib db (
              after_write some (
                if a
                then refused duplicate_flight
                else if b
                then refused duplicate_flight
                else flight_linked p (
                    append_link p.lib
                      (record db {
                        flights = db.flights ++ flight_row p (next_flight db.flights) key r ∷ [];
                      })
                      "flight"
                      (some (next_flight db.flights))
                      none)))
      of_tests true b = tt
      of_tests false true = tt
      of_tests false false =
          let a =
            flight-Adds p.lib db (flight_row p (next_flight db.flights) key r) _ (omega arith)
              (laws.reads_flight _) in
          rw (append_link-wrote p.lib none db _ "flight" _ _ a s)
            (moved_on-Adds p.lib db _ "flight" _ _ a s)

  entry-Moves :
      (db : Db) (e : Entry)
      → IsIntact p.lib none db
      → Moves p.lib db (after_write (λ r. some r.1) (append_entry_row p db e))
  unfolding append_entry_row entry_row
  entry-Moves db e s =
      of_test (
        not (refers_to_row (db.entries ++ entry_row p (next_entry db.entries) e ∷ []) e.supersedes))
    where
      of_test :
          (a : Bool)
          → Moves p.lib db (
              after_write
                (λ r. some r.1)
                (if a
                  then refused integrity
                  else entry_linked p (stored_entry p (next_entry db.entries) e) (
                      append_link p.lib
                        (record db {
                          entries = db.entries ++ entry_row p (next_entry db.entries) e ∷ [];
                        })
                        "entry"
                        (some (next_entry db.entries))
                        none)))
      of_test true = tt
      of_test false =
          let a =
            entry-Adds p.lib db (entry_row p (next_entry db.entries) e) _ (omega arith)
              (laws.reads_entry _) in
          rw (append_link-wrote p.lib none db _ "entry" _ _ a s)
            (moved_on-Adds p.lib db _ "entry" _ _ a s)

  pub aircraft-IsIntact :
      (db : Db) (rows : List AircraftRow)
      → IsIntact p.lib none db
      → IsIntact p.lib none (record db { aircraft = rows })
  aircraft-IsIntact db rows s =
      ok-IsIntact p.lib (record db { aircraft = rows })
        (rw (verify-aircraft db rows s, verify_intact p.lib db s) refl)

  log-Moves :
      (db : Db) (key : String) (r : FlightRecord)
      → IsIntact p.lib none db
      → Moves p.lib db (after_write some (add_log p db key r))
  unfolding add_log add_flight_row
  log-Moves db key r s =
      let rows = ignore_aircraft db.aircraft (aircraft_row (aircraft_of key r)) in
      from_there (insert_flight p (with_aircraft p db (some (aircraft_of key r))) key r) _
        (verify-aircraft db rows s)
        (flight-Moves (record db { aircraft = rows }) key r (aircraft-IsIntact db rows s))
    where
      from_there :
          (o : Transaction String) (d : Db)
          → verify p.lib d none ≡ verify p.lib db none
          → Moves p.lib d (after_write some o)
          → Moves p.lib db (after_write some o)
      from_there (stored x h) d q m = ap (λ v. moved_on (some v) (some h)) (sym q) ∙ m
      from_there (refused x) d q m = tt

  write-Moves : (db : Db) (w : Write) → IsIntact p.lib none db → Moves p.lib db (write p db w)
  unfolding write add_aircraft add_flight add_flight_row moved_on
  write-Moves db (put_aircraft a) s = ap some (sym (verify-aircraft db _ s))
  write-Moves db (put_flight key r) s = flight-Moves db key r s
  write-Moves db (put_log key r) s = log-Moves db key r s
  write-Moves db (put_entry e) s = entry-Moves db e s

  -- The verification kept of a journal that verifies, moved on with a write that is stored, is the one a walk
  -- of the journal after the write gives, where json.loads reads what json.dumps writes.
  pub moved_on-verify :
      (db db' : Db) (w : Write) (head : Option String)
      → (verify p.lib db none).ok ≡ true
      → write p db w ≡ stored db' head
      → moved_on (some (verify p.lib db none)) head ≡ some (verify p.lib db' none)
  moved_on-verify db db' w head ok done =
      subst (Moves p.lib db) done (write-Moves db w (ok-IsIntact p.lib db ok))
