-- ===== src/Ledger/Store.antt =====
-- What the ledger reads of service/store.py and writes to it: the aircraft keys, the entries in the order
-- of their ids, and the flight records of an aircraft. SQLite is not modelled: a table is a list of rows.
use uas_sustainment_workbenc.Base.{
  ℕ, ◌+◌, ltb, String, Option, some, List, [], ◌∷◌, ◌++◌, first, if◌then◌else◌,
}
use uas_sustainment_workbenc.Base.Time.{in_utc}
use uas_sustainment_workbenc.Flight.Record.{FlightRecord}
use uas_sustainment_workbenc.Ledger.Model.{Entry}
use uas_sustainment_workbenc.Ledger.Project.Order.{has_id, id_or_zero}

pub record Store : Type 0 where
  pub aircraft : List String
  pub entries : List Entry
  pub flights : String → List FlightRecord

abbrev pub max_id : List Entry → ℕ
max_id [] = 0
max_id (e ∷ es) = let rest = max_id es in if ltb rest (id_or_zero e) then id_or_zero e else rest

-- SELECT COALESCE(MAX(id), 0) + 1 FROM entries
unfoldable pub next_entry_id : Store → ℕ
next_entry_id s = max_id s.entries + 1

-- SELECT ... FROM entries WHERE id = ?
unfoldable pub entry : Store → ℕ → Option Entry
entry s n = first (has_id n) s.entries

-- `append_entry`: the row takes the next id and its times are written in UTC.
unfoldable pub append_entry : Store → Entry → Store × Entry
unfolding next_entry_id in_utc
append_entry s e =
    let stored = record e {
      id = some (next_entry_id s);
      occurred_utc = in_utc e.occurred_utc;
      recorded_utc = in_utc e.recorded_utc;
    } in
    (record s { entries = s.entries ++ stored ∷ [] }, stored)
