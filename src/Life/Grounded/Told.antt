-- ===== src/Life/Grounded/Told.antt =====
-- life/grounded.py: which logs the loop of `grounded_flights` judges, finds and lists, told apart from its branches.
use uas_sustainment_workbenc.Base.{
  ℕ, ℤ, pos, leb_ℤ, ◌+◌, ◌≡◌, refl, String, Bool, Bool-cases, true, false, not, ◌&&◌, inl, inr,
  keep, length, Option, none, some, List, [], ◌∷◌, map, arith,
}
use uas_sustainment_workbenc.Base.Dict.{Dict, get}
use uas_sustainment_workbenc.Base.Time.{DateTime}
use uas_sustainment_workbenc.Flight.Record.{Reason, Maybe, known, unknown, is_known, FlightRecord}
use uas_sustainment_workbenc.Life.Model.{Status}
use uas_sustainment_workbenc.Life.Engine.Board.{grounding_reasons}
use uas_sustainment_workbenc.Life.Grounded.{
  Wording, StateAt, GroundedFlight, NotJudged, WhyNot, excluded_as, no_start, is_duplicate_of,
  flight_not_known, no_flight, state_not_known, GroundedFlights, grounds, finding_of, original_of,
  note_log, note_finding, on_state, on_flight, on_duplicate, on_start, judge, judge_all, judged_at,
}

-- Two lists of one length, each of one to its place in the other.
abbrev pub Pairwise {ℓ} : {A B : Type ℓ} → (A → B → Type 0) → List A → List B → Type 0
Pairwise R [] [] = Unit
Pairwise R [] (y ∷ ys) = ⊥
Pairwise R (x ∷ xs) [] = ⊥
Pairwise R (x ∷ xs) (y ∷ ys) = R x y × Pairwise R xs ys

abbrev is_none : Option String → Bool
is_none none = true
is_none (some s) = false

-- A flight time above nothing.
abbrev pub flew : Maybe ℤ → Bool
flew (known s) = not (leb_ℤ s (pos 0))
flew (unknown why) = false

module _ (w : Wording) (key : String) (state_at : StateAt) (unchecked : Dict Reason)
    (excluded : Option String) where
  -- The state of the aircraft at a log's start.
  abbrev pub state_then : Maybe DateTime → Maybe Status
  state_then (known at) = (state_at at).1.status
  state_then (unknown why) = unknown why

  -- Nothing is excluded, the log has a start, is no duplicate and shows a flight.
  abbrev pub is_due : Option String → Maybe DateTime → Option String → Maybe ℤ → Bool
  is_due ex at original flight = is_none ex && (is_known at && (is_none original && flew flight))

  -- A log that is due and starts in a known state.
  abbrev pub is_judged : FlightRecord → Bool
  is_judged r =
      is_due excluded r.utc_start (original_of (get unchecked r.log_ref)) r.flight_time_s
      && is_known (state_then r.utc_start)

  -- A log that is due and starts in a grounding state.
  abbrev pub is_grounded : FlightRecord → Bool
  is_grounded r =
      is_due excluded r.utc_start (original_of (get unchecked r.log_ref)) r.flight_time_s
      && grounds (state_then r.utc_start)

  -- The reason given is true of the log.
  abbrev pub IsWhy : FlightRecord → WhyNot → Type 0
  IsWhy r (excluded_as why) = excluded ≡ some why
  IsWhy r (no_start why) = r.utc_start ≡ unknown why
  IsWhy r (is_duplicate_of k) = original_of (get unchecked r.log_ref) ≡ some k
  IsWhy r (flight_not_known why) = r.flight_time_s ≡ unknown why
  IsWhy r no_flight = (s : ℤ) × (r.flight_time_s ≡ known s) × (leb_ℤ s (pos 0) ≡ true)
  IsWhy r (state_not_known at why) =
      (r.utc_start ≡ known at) × ((state_at at).1.status ≡ unknown why)

  abbrev pub Notes : NotJudged → FlightRecord → Type 0
  Notes n r = (n.log_ref ≡ r.log_ref) × (n.utc_start ≡ r.utc_start) × IsWhy r n.why

  -- The finding is of this log, in the state and for the reasons of its start.
  abbrev pub Finds : GroundedFlight → FlightRecord → Type 0
  Finds f r =
      (f.log_ref ≡ r.log_ref)
      × (r.utc_start ≡ known f.utc_start)
      × ((state_at f.utc_start).1.status ≡ known f.status)
      × (grounds (known f.status) ≡ true)
      × (f.reasons ≡ map w.words (grounding_reasons (state_at f.utc_start).0))

  -- A report that counts `n` logs, has judged those of the list that are judged, has a finding of each that is
  -- grounded, and lists each that is not judged with why not, in their order.
  abbrev pub Told : ℕ → GroundedFlights → List FlightRecord → Type 0
  Told n g rs =
      (g.logs ≡ n)
      × (g.judged ≡ length (keep is_judged rs))
      × Pairwise Finds g.findings (keep is_grounded rs)
      × Pairwise Notes g.not_judged (keep (λ r. not (is_judged r)) rs)

  noted :
      (n : ℕ) (r : FlightRecord) (why : WhyNot) (g : GroundedFlights) (rs : List FlightRecord)
      → Told n g rs
      → is_judged r ≡ false
      → is_grounded r ≡ false
      → IsWhy r why
      → Told n (note_log w key state_at r why g) (r ∷ rs)
  noted n r why g rs (o, a, b, c) h k t = rw (h, k) (o, a, b, ((refl, refl, t), c))

  cleared :
      (n : ℕ) (r : FlightRecord) (g : GroundedFlights) (rs : List FlightRecord)
      → Told n g rs
      → is_judged r ≡ true
      → is_grounded r ≡ false
      → Told n (record g { judged = g.judged + 1 }) (r ∷ rs)
  cleared n r g rs (o, a, b, c) h k = rw (h, k) (o, omega (arith, a), b, c)

  found :
      (n : ℕ) (r : FlightRecord) (at : DateTime) (s : Status) (g : GroundedFlights)
      (rs : List FlightRecord)
      → Told n g rs
      → is_judged r ≡ true
      → is_grounded r ≡ true
      → r.utc_start ≡ known at
      → (state_at at).1.status ≡ known s
      → grounds (known s) ≡ true
      → Told n
          (note_finding w key state_at r at (state_at at).0 s (record g { judged = g.judged + 1 }))
          (r ∷ rs)
  unfolding finding_of
  found n r at s g rs (o, a, b, c) h k start state ground_ =
      rw (h, k) (o, omega (arith, a), ((refl, start, state, ground_, refl), b), c)

  module _ (n : ℕ) (r : FlightRecord) (g : GroundedFlights) (rs : List FlightRecord)
      (told : Told n g rs) where
    on_state-Told :
        (at : DateTime) (s : ℤ) (m : Maybe Status)
        → excluded ≡ none
        → r.utc_start ≡ known at
        → original_of (get unchecked r.log_ref) ≡ none
        → r.flight_time_s ≡ known s
        → leb_ℤ s (pos 0) ≡ false
        → (state_at at).1.status ≡ m
        → Told n (on_state w key state_at r at (state_at at).0 m g) (r ∷ rs)
    unfolding on_state
    on_state-Told at s (unknown why) ex st du fl up state =
        noted n r (state_not_known at why) g rs told (rw (ex, st, du, fl, up, state) refl)
          (rw (ex, st, du, fl, up, state) refl) (st, state)
    on_state-Told at s (known status) ex st du fl up state =
        elim (Bool-cases (grounds (known status))) [
          | inl grounded ↦ rw grounded (
              found n r at status g rs told (rw (ex, st, du, fl, up, state) refl)
                (rw (ex, st, du, fl, up, state) grounded) st state grounded)
          | inr flying ↦ rw flying (
              cleared n r g rs told (rw (ex, st, du, fl, up, state) refl)
                (rw (ex, st, du, fl, up, state) flying))
        ]

    on_flight-Told :
        (at : DateTime) (m : Maybe ℤ)
        → excluded ≡ none
        → r.utc_start ≡ known at
        → original_of (get unchecked r.log_ref) ≡ none
        → r.flight_time_s ≡ m
        → Told n (on_flight w key state_at r at m g) (r ∷ rs)
    on_flight-Told at (unknown why) ex st du fl =
        noted n r (flight_not_known why) g rs told (rw (ex, st, du, fl) refl)
          (rw (ex, st, du, fl) refl) fl
    on_flight-Told at (known s) ex st du fl = elim (Bool-cases (leb_ℤ s (pos 0))) [
      | inl down ↦ rw down (
          noted n r no_flight g rs told (rw (ex, st, du, fl, down) refl)
            (rw (ex, st, du, fl, down) refl) (s, fl, down))
      | inr up ↦ rw up (on_state-Told at s (state_at at).1.status ex st du fl up refl)
    ]

    on_duplicate-Told :
        (at : DateTime) (o : Option String)
        → excluded ≡ none
        → r.utc_start ≡ known at
        → original_of (get unchecked r.log_ref) ≡ o
        → Told n (on_duplicate w key state_at r at o g) (r ∷ rs)
    on_duplicate-Told at (some k) ex st du =
        noted n r (is_duplicate_of k) g rs told (rw (ex, st, du) refl) (rw (ex, st, du) refl) du
    on_duplicate-Told at none ex st du = on_flight-Told at r.flight_time_s ex st du refl

    on_start-Told :
        (m : Maybe DateTime)
        → excluded ≡ none
        → r.utc_start ≡ m
        → Told n (on_start w key state_at unchecked r m g) (r ∷ rs)
    on_start-Told (unknown why) ex st =
        noted n r (no_start why) g rs told (rw (ex, st) refl) (rw (ex, st) refl) st
    on_start-Told (known at) ex st =
        on_duplicate-Told at (original_of (get unchecked r.log_ref)) ex st refl

    judge-Told :
        (ex : Option String)
        → excluded ≡ ex
        → Told n (judge w key state_at unchecked ex r g) (r ∷ rs)
    unfolding judge
    judge-Told (some why) ex = noted n r (excluded_as why) g rs told (rw ex refl) (rw ex refl) ex
    judge-Told none ex = on_start-Told (judged_at r) ex refl

  pub judge_all-Told :
      (n : ℕ) (rs : List FlightRecord)
      → Told n (judge_all w key state_at unchecked excluded n rs) rs
  unfolding judge_all
  judge_all-Told n [] = (refl, refl, tt, tt)
  judge_all-Told n (r ∷ rs) = judge-Told n r _ rs (judge_all-Told n rs) excluded refl
