-- ===== src/Life/Engine/Usage/Monotone.antt =====
-- Time in service only grows: with the date, and with the logs that no date places.
use uas_sustainment_workbenc.Base.{
  ℕ, ℤ, pos, ◌≤ℤ◌, ◌<ℤ◌, ◌≤◌, int_laws, String, ◌≡◌, refl, Bool, true, false, Option, none, some,
  List, [], ◌∷◌, arith, All, Bool-cases, inl, inr, if◌then◌else◌,
}
use uas_sustainment_workbenc.Base.Dict.{get}
use uas_sustainment_workbenc.Base.Time.{DateTime}
use uas_sustainment_workbenc.Flight.Record.{Reason, Maybe, known, unknown, FlightRecord}
use uas_sustainment_workbenc.Flight.Reconcile.{
  Reconciliation, Finding, FindingKind, unlogged_flight, counter_mismatch, reconcile,
}
use uas_sustainment_workbenc.Flight.Reconcile.Findings.{Beyond, reconcile-Beyond}
use uas_sustainment_workbenc.Life.Engine.Usage.{
  flown_of, counted, flown_logs, unlogged_of, by_ref, usage, sum_flown, sum_unlogged, total,
  not_known, first_log, most_time_in_service, time_in_service, is_duplicate,
}

-- No log shows less than no flight.
abbrev pub HasNoNegativeFlight : FlightRecord → Type 0
HasNoNegativeFlight r = pos 0 ≤ℤ (flown_of r).seconds

-- Whatever counts under the first date and choice counts under the second.
abbrev pub CountsMore : Option DateTime → Bool → Option DateTime → Bool → Type 0
CountsMore u d v e = (r : FlightRecord) → counted r u d ≡ true → counted r v e ≡ true

module _ (result : Reconciliation) (u v : Option DateTime) (d e : Bool)
    (more : CountsMore u d v e) where
  sum_flown-mono :
      (rs : List FlightRecord)
      → All HasNoNegativeFlight rs
      → sum_flown (flown_logs result u d rs) ≤ℤ sum_flown (flown_logs result v e rs)
  unfolding flown_logs
  sum_flown-mono [] h = omega arith
  sum_flown-mono (r ∷ rs) h =
      let ih = sum_flown-mono rs h.1 in
      let nonneg = h.0 in
      elim (Bool-cases (is_duplicate (get result.unchecked r.log_ref))) [
        | inl dup ↦ rw dup ih
        | inr once ↦ elim (Bool-cases (counted r u d)) [
          | inl here ↦ rw (once, here, more r here) (omega (int_laws, ih))
          | inr gone ↦ elim (Bool-cases (counted r v e)) [
            | inl there ↦ rw (once, gone, there) (omega (int_laws, ih, nonneg))
            | inr not_there ↦ rw (once, gone, not_there) ih
          ]
        ]
      ]

  -- One finding more adds no less to the larger sum.
  step-mono :
      (k : FindingKind) (o : Option FlightRecord) (s : ℤ) (xs ys : List (Maybe DateTime × ℤ))
      → (k ≡ unlogged_flight → pos 0 ≤ℤ s)
      → sum_unlogged xs ≤ℤ sum_unlogged ys
      → sum_unlogged (elim k [
        | counter_mismatch ↦ xs
        | unlogged_flight ↦ elim o [
          | none ↦ xs
          | some r ↦ if counted r u d then (r.utc_start, s) ∷ xs else xs
        ]
      ])
        ≤ℤ sum_unlogged (elim k [
          | counter_mismatch ↦ ys
          | unlogged_flight ↦ elim o [
            | none ↦ ys
            | some r ↦ if counted r v e then (r.utc_start, s) ∷ ys else ys
          ]
        ])
  step-mono counter_mismatch o s xs ys p h = h
  step-mono unlogged_flight none s xs ys p h = h
  step-mono unlogged_flight (some r) s xs ys p h =
      let nonneg = p refl in
      elim (Bool-cases (counted r u d)) [
        | inl here ↦ rw (here, more r here) (omega (int_laws, h))
        | inr gone ↦ elim (Bool-cases (counted r v e)) [
          | inl there ↦ rw (gone, there) (omega (int_laws, h, nonneg))
          | inr not_there ↦ rw (gone, not_there) h
        ]
      ]

  sum_unlogged-mono :
      (t : ℕ) (rs : List FlightRecord) (fs : List Finding)
      → All (Beyond t) fs
      → sum_unlogged (unlogged_of result u d rs fs) ≤ℤ sum_unlogged (unlogged_of result v e rs fs)
  unfolding unlogged_of
  sum_unlogged-mono t rs [] h = omega arith
  sum_unlogged-mono t rs (f ∷ fs) h =
      step-mono f.kind (by_ref rs f.log_ref) f.seconds (unlogged_of result u d rs fs)
        (unlogged_of result v e rs fs) (positive f h.0.1) (sum_unlogged-mono t rs fs h.1)
    where
      positive :
          (f : Finding)
          → (f.kind ≡ unlogged_flight → pos t <ℤ f.seconds)
          → f.kind ≡ unlogged_flight
          → pos 0 ≤ℤ f.seconds
      positive f p q = let b = p q in omega arith

-- With a larger choice of logs the total is no less.
pub total-mono :
    (key : String) (before : ℤ) (rs : List FlightRecord) (t : ℕ) (u v : Option DateTime)
    (d e : Bool)
    → CountsMore u d v e
    → All HasNoNegativeFlight rs
    → total before (usage key rs (pos t) u d) ≤ℤ total before (usage key rs (pos t) v e)
unfolding usage
total-mono key before rs t u v d e more h =
    let result = reconcile rs (some key) (pos t) in
    let a = sum_flown-mono result u v d e more rs h in
    let b =
      sum_unlogged-mono result u v d e more t rs result.findings
        (reconcile-Beyond rs (some key) t) in
    omega (int_laws, a, b)

CountsMore-undated : (u : Option DateTime) → CountsMore u false u true
unfolding counted
CountsMore-undated u r h = ground arith

CountsMore-later : (s t : DateTime) (d : Bool) → s.utc ≤ t.utc → CountsMore (some s) d (some t) d
unfolding counted
CountsMore-later s t d le r h = ground arith

CountsMore-now : (s : DateTime) (d : Bool) → CountsMore (some s) d none d
unfolding counted
CountsMore-now s d r h = ground arith

known_total :
    (o : Option Reason) (n x : ℤ)
    → (elim o [ some why ↦ unknown why | none ↦ known n ]) ≡ known x
    → n ≡ x
known_total none n x p = cc
known_total (some w) n x p = cc

time_in_service-total :
    (key : String) (before : ℤ) (rs : List FlightRecord) (t : ℤ) (until : Option DateTime)
    (d : Bool) (x : ℤ)
    → time_in_service key before rs t until d ≡ known x
    → total before (usage key rs t until d) ≡ x
unfolding time_in_service
time_in_service-total key before rs t until d x e =
    known_total (not_known key before until (first_log rs)) _ x e

-- Where no log shows less than no flight, the least time in service the records allow at a date, counting
-- only the logs they place by then, is at most the most they allow.
pub least-le-most :
    (key : String) (before : ℤ) (rs : List FlightRecord) (t : ℕ) (until : Option DateTime)
    (least : ℤ)
    → All HasNoNegativeFlight rs
    → time_in_service key before rs (pos t) until false ≡ known least
    → least ≤ℤ most_time_in_service key before rs (pos t) until
unfolding most_time_in_service
least-le-most key before rs t until least h e =
    rw (← time_in_service-total key before rs (pos t) until false least e)
      (total-mono key before rs t until until false true (CountsMore-undated until) h)

-- Where no log shows less than no flight, the time in service does not fall with the date: what is known
-- at a date is at most what is known at a later one.
pub time_in_service-mono :
    (key : String) (before : ℤ) (rs : List FlightRecord) (t : ℕ) (d : Bool) (s u : DateTime)
    (a b : ℤ)
    → s.utc ≤ u.utc
    → All HasNoNegativeFlight rs
    → time_in_service key before rs (pos t) (some s) d ≡ known a
    → time_in_service key before rs (pos t) (some u) d ≡ known b
    → a ≤ℤ b
time_in_service-mono key before rs t d s u a b le h p q =
    rw
      (
        ← time_in_service-total key before rs (pos t) (some s) d a p,
        ← time_in_service-total key before rs (pos t) (some u) d b q,
      )
      (total-mono key before rs t (some s) (some u) d d (CountsMore-later s u d le) h)
