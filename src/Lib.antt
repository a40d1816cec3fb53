-- ===== src/Lib.antt =====
-- UAS sustainment workbench: what drones flew, what maintenance they are due, and the ledger of what was
-- entered about them.
--
-- The parts and the files that model them:
--   src/uas_workbench/flight/record.py     Flight/Record.antt: the flight record, `Maybe` with its reason
--   src/uas_workbench/flight/reconcile.py  Flight/Reconcile.antt: `reconcile` and its helpers, from the
--                                          first loop (`group_logs`) to the pairs of each aircraft
--   src/uas_workbench/life/model.py        Life/Model.antt: components, inspections, due items, the board
--   src/uas_workbench/life/policy.py       Life/Policy.antt: life rules and the checks on loading them
--   src/uas_workbench/life/engine.py       Life/Engine: Usage (the logs that count at a date), Rounding,
--                                          Items and Inspections (the due items), Due (`due_list`), Board
--   src/uas_workbench/ledger/model.py      Ledger/Model.antt: entries and the records projected from them
--   src/uas_workbench/ledger/project.py    Ledger/Project: Order (`fold_key`, `liveness`), Fold (`_fold`),
--                                          Records (`project`)
--   src/uas_workbench/ledger/validate.py   Ledger/Validate: Shape, Checks, Transitions, Change, Hours, one
--                                          per stage of the judgement, and Write (`validate`, `append`)
--   src/uas_workbench/service/store.py     Ledger/Store.antt: the rows the ledger reads and appends;
--                                          Service/Tables.antt, Writes.antt (one function per write; Runs:
--                                          runs of them), Reads.antt (`_entry`, `_flight` and
--                                          what is read through them), Kept.antt (`_after_commit`)
--   src/uas_workbench/service/journal.py   Service/Journal: Hashes, Contents (`row_content`), Verify
--                                          (`verify`, one `link_round` per link), Append (`append_link`,
--                                          `migrate`); Chain, Evidence, Walked and Growth for the proofs
--   src/uas_workbench/life/grounded.py     Life/Grounded.antt: `grounded_flights`, one `judge` per log
--   src/uas_workbench/flight/ardupilot.py  Flight/Dataflash.antt: `_check_framing`, one `frame_step` per
--                                          message; Flight/Ardupilot.antt: what is derived from the samples
--   src/uas_workbench/flight/px4.py        Flight/Px4.antt: arm cycles, airborne time, the lifetime counter
--   src/uas_workbench/flight/codec.py      Flight/Codec.antt: a flight record as JSON and back
--   src/uas_workbench/ledger/codec.py      Ledger/Codec.antt: an entry as JSON and back
--
-- How they interact: the engine reconciles the logs of an aircraft (`usage` calls `reconcile`) and adds
-- them up; the ledger projects its live entries into maintenance records and components, which the
-- engine reads; a write is judged by projecting the entries with it in place, and by the engine's own
-- usage and limits; only an accepted entry is appended to the store. The store writes a row as the JSON of
-- its record, and links it to the journal in the same transaction; reading goes back through the codec.
--
-- Representation: a float of seconds or hours is an exact integer of thousandths, and a limit, an interval or
-- a tolerance in hours one of millionths, so rounding of binary floats is not modelled while `round` is; the
-- signals and counters of a log are in microseconds, before the code divides them by a million; an instant is its number of UTC microseconds with the offset it was written
-- with; an English sentence (a reason, a message, a refusal) is a constructor with the values it names;
-- a Python dict is an association list in insertion order; a raised exception is a result, a refusal
-- with its status and sentence apart from other errors. The store is a value that each write returns; a
-- table is the list of its rows in the order of their keys, and a write that is refused leaves the value it
-- was given, as its transaction is rolled back.
--
-- Fuel: `root_from`, the loop of `fold_key` along `supersedes`, runs on fuel. Every round adds an
-- id of the given entries to those seen, so as many rounds as there are entries reach its end. The
-- framing check runs on fuel too: a round goes on by at least a byte, so as many rounds as the file has bytes,
-- and one, reach its end. All other loops are structural.
--
-- Parameters: Python's str, float, int and date.fromisoformat on a JSON value (`Conversions`), pydantic's
-- validation of an entry's details and the decimal text of a number (`Rules`); sha256, json.dumps and
-- json.loads (`Library`), isoformat and fromisoformat and the conversions the codecs call (`Python`), with the
-- laws a theorem needs of them as named hypotheses (`IsLibrary`, `IsPlatform`, `IsPython`); the size pymavlink
-- gives a format character (`char_size`); how a reason of the board and an instant read (`Wording`).
--
-- Not modelled: `batch` of the store; that `date` raises past the year 9999; SQLite's locks, the WAL,
-- snapshots and the checks of the file; the codec of the maintenance records; the sentences of `line` and
-- of an unreadable record; a record nested too deep to parse; what pymavlink and pyulog read, and the
-- battery and messages of a PX4 log; the cues, those of a grounded flight among them, and the checker
-- `problems` of life/grounded.py; evidence packs and pages; HTTP routes and the command line; the
-- assistant; the census; the demonstration fleet. The tables of fleet.toml are taken as read.
--
-- Base holds the shared names: Boolean tests and lists over the native numbers, integers, sorting,
-- dictionaries, time. The Tests modules run the definitions and the theorems at concrete inputs.
pub mod Base
pub mod Flight
pub mod Life
pub mod Ledger
pub mod Service
