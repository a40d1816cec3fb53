-- ===== src/Flight/Px4.antt =====
-- flight/px4.py: what is derived from the columns and parameters of a ULog once pyulog has read it. A time is
-- in microseconds; a float value is in thousandths; a parameter's counter word is an int. A column is the list
-- of its values. The reading, the battery's integrals and the messages are not modelled.
use uas_sustainment_workbenc.Base.{
  ℕ, ℤ, pos, negsuc, ◌+ℤ◌, ◌-ℤ◌, ◌*ℤ◌, eqb_ℤ, ◌+◌, ◌-◌, ◌%◌, String, str_eq, Bool, true, false, not,
  ◌&&◌, Option, none, some, List, [], ◌∷◌, map, if◌then◌else◌,
}
use uas_sustainment_workbenc.Flight.Record.{Reason, said, Maybe, known, unknown}
use uas_sustainment_workbenc.Flight.Ardupilot.{is_set}
pub mod Counter
pub mod Tests

-- `_rising`: how often a column goes from zero to another value
unfoldable pub rising_edges : List ℤ → ℕ
rising_edges [] = 0
rising_edges (a ∷ []) = 0
rising_edges (a ∷ b ∷ rest) =
    let later = rising_edges (b ∷ rest) in if not (is_set a) && is_set b then later + 1 else later

-- ARMING_STATE_ARMED
abbrev pub arming_state_armed : ℤ
arming_state_armed = pos 2000

abbrev pub armed_flag : ℤ → ℤ
armed_flag state = if eqb_ℤ state arming_state_armed then pos 1000 else pos 0

-- A topic that is not in the log, and a column that its topic has or has not: its first value and the others,
-- since pyulog makes a topic of its messages only.
abbrev pub cycles_of : Option (Option (ℤ × List ℤ)) → Maybe ℕ
cycles_of none = unknown (said "no vehicle_status topic")
cycles_of (some none) = unknown (said "vehicle_status has no arming_state field")
cycles_of (some (some (state, states))) =
    known (
      rising_edges (map armed_flag (state ∷ states)) + (if is_set (armed_flag state) then 1 else 0))

-- `_arm_cycles`, of the arming_state column
unfoldable pub px4_arm_cycles : Option (Option (ℤ × List ℤ)) → Maybe ℕ
unfolding rising_edges
px4_arm_cycles column = cycles_of column

-- The time between samples of which the first is zero: np.diff(t)[landed[:-1] == 0]
unfoldable pub airborne_us : List (ℕ × ℤ) → ℤ
airborne_us [] = pos 0
airborne_us (a ∷ []) = pos 0
airborne_us ((s, landed) ∷ (t, next) ∷ rest) =
    let later = airborne_us ((t, next) ∷ rest) in
    if is_set landed then later else (pos t -ℤ pos s) +ℤ later

-- The 2^32 of a counter word.
abbrev pub word : ℕ
word = 4294967296

-- int(lo) & 0xFFFFFFFF
abbrev pub low_word : ℤ → ℕ
low_word (pos n) = n % word
low_word (negsuc n) = word - 1 - n % word

-- `_counter_value`, in microseconds: the quotient by a million is not taken. The words share no bit, so their
-- or is their sum.
unfoldable pub counter_value : ℤ → ℤ → ℤ
counter_value hi lo = hi *ℤ pos word +ℤ pos (low_word lo)

-- The variables of the loop of `_lifetime`.
pub record Counting : Type 0 where
  pub hi : ℤ
  pub lo : ℤ
  pub last_seen : ℤ
  pub last_at : ℤ

pub record ParameterChange : Type 0 where
  pub timestamp : ℕ
  pub name : String
  pub value : ℤ

abbrev pub counted_at : ℕ → ℕ → ℤ → ℤ → Counting
counted_at start t hi lo = record {
  hi = hi;
  lo = lo;
  last_seen = counter_value hi lo;
  last_at = pos t -ℤ pos start;
}

-- The loop of `_lifetime` over the changed parameters.
unfoldable pub count_changes : ℕ → Counting → List ParameterChange → Counting
unfolding counter_value
count_changes start c [] = c
count_changes start c (p ∷ ps) =
    count_changes start
      (if str_eq p.name "LND_FLIGHT_T_HI"
        then counted_at start p.timestamp p.value c.lo
        else if str_eq p.name "LND_FLIGHT_T_LO"
        then counted_at start p.timestamp c.hi p.value
        else c)
      ps

-- `_lifetime` in microseconds: the counter at boot, last seen, and when; of the words at boot and their changes
abbrev pub seen_from : ℕ → Option ℤ → Option ℤ → List ParameterChange → Maybe (ℤ × ℤ × ℤ)
seen_from start (some hi) (some lo) changes =
    let boot = counter_value hi lo in
    let c =
      count_changes start (record { hi = hi; lo = lo; last_seen = boot; last_at = pos 0 })
        changes in
    known (boot, c.last_seen, c.last_at)
seen_from start _ _ changes = unknown (said "LND_FLIGHT_T_HI/LO not in parameters")

unfoldable pub px4_lifetime : ℕ → Option ℤ → Option ℤ → List ParameterChange → Maybe (ℤ × ℤ × ℤ)
unfolding counter_value count_changes
px4_lifetime start hi lo changes = seen_from start hi lo changes
