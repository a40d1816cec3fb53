-- ===== src/Service/Tables.antt =====
-- The tables of service/store.py, each the list of its rows in the order of their integer primary key,
-- which is the order SQLite keeps them in. A text column is a text; a number in an id or a sequence column
-- is not negative.
use uas_sustainment_workbenc.Base.{ℕ, ◌==◌, String, Option, List, first}

pub record AircraftRow : Type 0 where
  pub key : String
  pub label : String
  pub source : String
  pub synthetic : ℕ
  pub licence : String
  pub attribution : String

pub record EntryRow : Type 0 where
  pub id : ℕ
  pub subject : String
  pub kind : String
  pub occurred_utc : String
  pub recorded_utc : String
  pub synthetic : ℕ
  pub supersedes : Option ℕ
  pub record_text : String

pub record FlightRow : Type 0 where
  pub id : ℕ
  pub aircraft_key : String
  pub log_ref : String
  pub synthetic : ℕ
  pub utc_start : Option String
  pub record_text : String

-- A row of the journal.
pub record Link : Type 0 where
  pub seq : ℕ
  pub kind : String
  pub ref : Option ℕ
  pub note : Option String
  pub content_hash : String
  pub prev_hash : String
  pub link_hash : String

-- The store's file: its tables and PRAGMA user_version.
pub record Db : Type 0 where
  pub aircraft : List AircraftRow
  pub flights : List FlightRow
  pub entries : List EntryRow
  pub links : List Link
  pub version : ℕ

-- SELECT ... WHERE id = ?
abbrev pub find_entry : List EntryRow → ℕ → Option EntryRow
find_entry rows n = first (λ r. r.id == n) rows

abbrev pub find_flight : List FlightRow → ℕ → Option FlightRow
find_flight rows n = first (λ r. r.id == n) rows
