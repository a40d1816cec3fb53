-- ===== src/Flight/Ardupilot.antt =====
-- flight/ardupilot.py: what is derived from the samples of a DataFlash log once pymavlink has read it. A time
-- is in microseconds, as the log holds it; a float value is in thousandths. The fields that need the text of
-- a message, and the reading itself, are not modelled.
use uas_sustainment_workbenc.Base.{
  ℕ, ℤ, pos, ◌+ℤ◌, ◌-ℤ◌, eqb_ℤ, leb_ℤ, ◌+◌, ◌-◌, ◌*◌, ◌==◌, ltb, leb, String, Bool, true, false,
  not, ◌&&◌, ◌||◌, keep, length, Option, none, some, List, [], ◌∷◌, ◌++◌, map, if◌then◌else◌,
}
use uas_sustainment_workbenc.Base.Time.{DateTime, day, second}
use uas_sustainment_workbenc.Base.Dict.{Dict, get}
use uas_sustainment_workbenc.Flight.Record.{Reason, said, Maybe, known, unknown}
pub mod Signals
pub mod Held
pub mod Tests

-- (TimeUS, value)
abbrev pub Sample : Type 0
Sample = ℕ × ℤ

-- A value is true where it is not zero.
abbrev pub is_set : ℤ → Bool
is_set v = not (eqb_ℤ v (pos 0))

-- `_rising`
unfoldable pub rising : List Sample → List ℕ
rising [] = []
rising (s ∷ []) = []
rising ((s, prev) ∷ (t, cur) ∷ rest) =
    let later = rising ((t, cur) ∷ rest) in
    if not (is_set prev) && is_set cur then t ∷ later else later

-- `_falling`
unfoldable pub falling : List Sample → List ℕ
falling [] = []
falling (s ∷ []) = []
falling ((s, prev) ∷ (t, cur) ∷ rest) =
    let later = falling ((t, cur) ∷ rest) in
    if is_set prev && not (is_set cur) then t ∷ later else later

-- `_time_while_set`, in microseconds: the quotient by a million is not taken.
unfoldable pub time_while_set : List Sample → ℤ
time_while_set [] = pos 0
time_while_set (s ∷ []) = pos 0
time_while_set ((s, prev) ∷ (t, cur) ∷ rest) =
    let later = time_while_set ((t, cur) ∷ rest) in
    if is_set prev then (pos t -ℤ pos s) +ℤ later else later

-- The samples and parameters of `_Log` that the derivations below read.
pub record Log : Type 0 where
  pub params : Dict ℤ
  pub flttime : List Sample
  pub flying : List Sample
  pub armed : List Sample
  pub events : List Sample
  pub curr_tot : List Sample
  pub enrg_tot : List Sample
  pub gps_fix : Option (ℕ × ℕ × ℕ)
  pub first_us : Option ℕ

-- The code of an armed event, of census/ardupilot.py
abbrev pub ev_armed : ℤ
ev_armed = pos 10000

abbrev pub is_zero : Option ℤ → Bool
is_zero none = false
is_zero (some v) = eqb_ℤ v (pos 0)

abbrev pub count : (ℤ → Bool) → List Sample → ℕ
count p samples = length (keep (λ s. p s.1) samples)

abbrev pub from_events : Log → Maybe ℕ
from_events log = elim log.events [
  | _ ∷ _ ↦ known (count (λ v. eqb_ℤ v ev_armed) log.events)
  | [] ↦
      if is_zero (get log.params "ARMING_REQUIRE")
      then unknown (said "ARMING_REQUIRE=0: the aircraft is always armed and logs no arm events")
      else unknown (said "no ARM or EV messages")
]

-- `_arm_cycles`
unfoldable pub arm_cycles : Log → Maybe ℕ
arm_cycles log = elim log.armed [ _ ∷ _ ↦ known (count is_set log.armed) | [] ↦ from_events log ]

abbrev pub last_value : ℤ → List Sample → ℤ
last_value v [] = v
last_value v ((t, x) ∷ rest) = last_value x rest

-- samples[-1][1] - samples[0][1]
abbrev pub drawn : List Sample → Option ℤ
drawn [] = none
drawn ((t, v) ∷ rest) = some (last_value v rest -ℤ v)

abbrev pub energy_of : Option ℤ → Maybe ℤ
energy_of none = unknown (said "no EnrgTot field in BAT/CURR messages")
energy_of (some e) = known e

abbrev pub no_monitor : Log → Reason
no_monitor log =
    if is_zero (get log.params "BATT_MONITOR")
    then said "battery monitor disabled (BATT_MONITOR=0)"
    else said "no BAT or CURR messages"

abbrev pub battery_of : Log → Option ℤ → Maybe ℤ × Maybe ℤ
battery_of log none = (unknown (no_monitor log), unknown (no_monitor log))
battery_of log (some mah) = (known mah, energy_of (drawn log.enrg_tot))

-- `_battery`
unfoldable pub battery : Log → Maybe ℤ × Maybe ℤ
battery log = battery_of log (drawn log.curr_tot)

abbrev pub no_stat : Reason
no_stat = said "no STAT messages (ArduPlane logs them; other vehicle types do not)"

-- The flight time and the landings of `read_dataflash`
unfoldable pub flight_time : Log → Maybe ℤ
unfolding time_while_set
flight_time log = elim log.flying [
  | [] ↦ unknown no_stat
  | _ ∷ _ ↦ known (time_while_set log.flying)
]

unfoldable pub landings : Log → Maybe ℕ
unfolding falling
landings log = elim log.flying [
  | [] ↦ unknown no_stat
  | _ ∷ _ ↦ known (length (falling log.flying))
]

-- GPS_EPOCH, 6 January 1980, and GPS_MINUS_UTC, in microseconds
abbrev pub gps_epoch : ℕ
gps_epoch = 722819 * day

abbrev pub gps_minus_utc : ℕ
gps_minus_utc = 18 * second

abbrev pub no_fix : Reason
no_fix = said "no GPS fix with a valid week in the log"

abbrev pub start_of_fix : Option (ℕ × ℕ × ℕ) → Option ℕ → Maybe DateTime
start_of_fix (some (t, week, ms)) (some first_us) = known (record {
  utc = gps_epoch + week * 7 * day + ms * 1000 + first_us - gps_minus_utc - t;
  offset = some (pos 0);
})
start_of_fix _ _ = unknown no_fix

-- `_utc_start`: the time of the fix, less the time from the first sample to it; not before the first instant
-- of the calendar.
unfoldable pub utc_start_of : Log → Maybe DateTime
utc_start_of log = start_of_fix log.gps_fix log.first_us
