-- ===== src/Life/Grounded.antt =====
-- life/grounded.py: logged flights that start while the records show the aircraft grounded. The cues of a
-- finding are not modelled; how a reason of the board and an instant read is a parameter.
use Prim.Native.String.{compare, ◌++◌ as str_append}
use Prim.Native.Nat.{Ordering}
use uas_sustainment_workbenc.Base.{
  ℕ, ℤ, pos, leb_ℤ, ◌+◌, ◌==◌, ltb, String, str_eq, Bool, true, false, not, ◌&&◌, ◌||◌, any, keep,
  length, Option, none, some, List, [], ◌∷◌, ◌++◌, map, if◌then◌else◌,
}
use uas_sustainment_workbenc.Base.Sort.{sort_by}
use uas_sustainment_workbenc.Base.Dict.{Dict, get}
use uas_sustainment_workbenc.Base.Time.{DateTime}
use uas_sustainment_workbenc.Flight.Record.{
  Reason, duplicate_of, Maybe, known, unknown, is_known, FlightRecord,
}
use uas_sustainment_workbenc.Flight.Reconcile.{reconcile}
use uas_sustainment_workbenc.Life.Model.{
  Status, aog, in_maintenance, unserviceable, deferred_defects, serviceable, BoardReason, DueList,
  Board,
}
use uas_sustainment_workbenc.Life.Engine.Usage.{counted}
use uas_sustainment_workbenc.Life.Engine.Board.{grounding_reasons}
pub mod Told
pub mod Each
pub mod Tests

-- The text of a board's reason, and of an instant (`_stamp`).
pub record Wording : Type 0 where
  pub words : BoardReason → String
  pub stamp : DateTime → String

pub record GroundedFlight : Type 0 where
  pub aircraft_key : String
  pub log_ref : String
  pub utc_start : DateTime
  pub status : Status
  pub reasons : List String
  pub message : String

-- Why a log is not judged, by the sentence that says it.
pub data WhyNot : Type 0 where
  excluded_as : String → WhyNot
  no_start : Reason → WhyNot
  is_duplicate_of : String → WhyNot
  flight_not_known : Reason → WhyNot
  no_flight : WhyNot
  state_not_known : DateTime → Reason → WhyNot

pub record NotJudged : Type 0 where
  pub log_ref : String
  pub utc_start : Maybe DateTime
  pub why : WhyNot

pub record GroundedFlights : Type 0 where
  pub aircraft_key : String
  pub logs : ℕ
  pub judged : ℕ
  pub findings : List GroundedFlight
  pub not_judged : List NotJudged

-- `judged_at`
abbrev pub judged_at : FlightRecord → Maybe DateTime
judged_at r = r.utc_start

-- `grounds`: a state of GROUNDING
unfoldable pub grounds : Maybe Status → Bool
grounds (known unserviceable) = true
grounds (known in_maintenance) = true
grounds (known aog) = true
grounds _ = false

abbrev pub status_text : Status → String
status_text aog = "AOG"
status_text in_maintenance = "in maintenance"
status_text unserviceable = "unserviceable"
status_text deferred_defects = "serviceable with deferred defects"
status_text serviceable = "serviceable"

-- "; ".join(reasons)
abbrev pub joined : List String → String
joined [] = ""
joined (s ∷ []) = s
joined (s ∷ t ∷ ss) = let rest = joined (t ∷ ss) in str_append s (str_append "; " rest)

-- `sentence`
unfoldable pub sentence : Wording → String → DateTime → Status → List String → String
sentence w key start status reasons = str_append "a flight of aircraft " (
    str_append key (
      str_append " was logged from " (
        str_append (w.stamp start) (
          str_append " while the records show the aircraft "
            (str_append (status_text status) (str_append " at that time: " (joined reasons)))))))

-- `_finding`, of a state that is known
unfoldable pub finding_of : Wording → String → String → DateTime → DueList → Status → GroundedFlight
unfolding sentence grounding_reasons
finding_of w key ref at due status =
    let reasons = map w.words (grounding_reasons due) in
    record {
      aircraft_key = key;
      log_ref = ref;
      utc_start = at;
      status = status;
      reasons = reasons;
      message = sentence w key at status reasons;
    }

-- What the log is a duplicate of.
abbrev pub original_of : Option Reason → Option String
original_of none = none
original_of (some why) = elim why [ duplicate_of k ↦ some k | _ ↦ none ]

abbrev pub StateAt : Type 0
StateAt = DateTime → DueList × Board

module _ (w : Wording) (key : String) (state_at : StateAt) where
  -- not_judged.append(NotJudged(...))
  abbrev pub note_log : FlightRecord → WhyNot → GroundedFlights → GroundedFlights
  note_log r why g = record g {
    not_judged = record { log_ref = r.log_ref; utc_start = r.utc_start; why = why } ∷ g.not_judged;
  }

  -- findings.append(_finding(...))
  abbrev pub note_finding :
      FlightRecord → DateTime → DueList → Status → GroundedFlights → GroundedFlights
  note_finding r at due s g = record g {
    findings = finding_of w key r.log_ref at due s ∷ g.findings;
  }

  -- The state at the log's start.
  unfoldable pub on_state :
      FlightRecord → DateTime → DueList → Maybe Status → GroundedFlights → GroundedFlights
  unfolding grounds finding_of
  on_state r at due (unknown why) g = note_log r (state_not_known at why) g
  on_state r at due (known s) g =
      let g' = record g { judged = g.judged + 1 } in
      if grounds (known s) then note_finding r at due s g' else g'

  abbrev pub on_flight : FlightRecord → DateTime → Maybe ℤ → GroundedFlights → GroundedFlights
  on_flight r at (unknown why) g = note_log r (flight_not_known why) g
  on_flight r at (known s) g =
      if leb_ℤ s (pos 0)
      then note_log r no_flight g
      else on_state r at (state_at at).0 (state_at at).1.status g

  abbrev pub on_duplicate :
      FlightRecord → DateTime → Option String → GroundedFlights → GroundedFlights
  on_duplicate r at (some k) g = note_log r (is_duplicate_of k) g
  on_duplicate r at none g = on_flight r at r.flight_time_s g

  abbrev pub on_start :
      Dict Reason → FlightRecord → Maybe DateTime → GroundedFlights → GroundedFlights
  on_start unchecked r (unknown why) g = note_log r (no_start why) g
  on_start unchecked r (known at) g = on_duplicate r at (original_of (get unchecked r.log_ref)) g

  -- One round of the loop of `grounded_flights`.
  unfoldable pub judge :
      Dict Reason → Option String → FlightRecord → GroundedFlights → GroundedFlights
  unfolding on_state
  judge unchecked (some why) r g = note_log r (excluded_as why) g
  judge unchecked none r g = on_start unchecked r (judged_at r) g

  -- The loop; a round adds to the lists of what the logs after it add.
  unfoldable pub judge_all : Dict Reason → Option String → ℕ → List FlightRecord → GroundedFlights
  unfolding judge
  judge_all unchecked excluded logs [] = record {
    aircraft_key = key;
    logs = logs;
    judged = 0;
    findings = [];
    not_judged = [];
  }
  judge_all unchecked excluded logs (r ∷ rs) =
      judge unchecked excluded r (judge_all unchecked excluded logs rs)

-- The key (judged_at(r), r.log_ref) of `sorted`.
abbrev pub start_key_le : Maybe DateTime → Maybe DateTime → String → String → Bool
start_key_le (known s) (known t) a b =
    if s.utc == t.utc
    then (elim (compare a b) [ Ordering.gt ↦ false | _ ↦ true ])
    else ltb s.utc t.utc
start_key_le _ _ a b = true

abbrev pub dated_le : FlightRecord → FlightRecord → Bool
dated_le r s = start_key_le (judged_at r) (judged_at s) r.log_ref s.log_ref

-- The logs in the order they are judged in: those with a start by it, then the others.
unfoldable pub in_turn : List FlightRecord → List FlightRecord
in_turn ended =
    sort_by dated_le (keep (λ r. is_known (judged_at r)) ended)
    ++ keep (λ r. not (is_known (judged_at r))) ended

-- `grounded_flights`
unfoldable pub grounded_flights :
    Wording
    → String
    → List FlightRecord
    → StateAt
    → Option DateTime
    → ℤ
    → Option String
    → GroundedFlights
unfolding judge_all in_turn counted
grounded_flights w key records state_at until tolerance excluded =
    let unchecked = (reconcile records (some key) tolerance).unchecked in
    let ended = keep (λ r. counted r until true) records in
    judge_all w key state_at unchecked excluded (length ended) (in_turn ended)
