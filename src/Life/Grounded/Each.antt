-- ===== src/Life/Grounded/Each.antt =====
-- life/grounded.py: the report of `grounded_flights` log by log, and its findings' reasons.
use uas_sustainment_workbenc.Base.{
  ℤ, ◌+◌, ◌≡◌, ◌≢◌, refl, sym, ap, ◌∙◌, String, Bool, Bool-cases, true, false, not, inl, inr, All,
  keep, length, length-append, Option, some, List, [], ◌∷◌, map, arith,
}
use mathlib.Core.Path.{subst}
use uas_sustainment_workbenc.Base.Sort.{insert, sort_by}
use uas_sustainment_workbenc.Base.Dict.{Dict}
use uas_sustainment_workbenc.Base.Time.{DateTime}
use uas_sustainment_workbenc.Flight.Record.{
  Reason, no_record, known, unknown, is_known, FlightRecord,
}
use uas_sustainment_workbenc.Flight.Reconcile.{reconcile}
use uas_sustainment_workbenc.Life.Model.{
  Status, aog, in_maintenance, unserviceable, deferred_defects, serviceable, BoardReason, DueList,
}
use uas_sustainment_workbenc.Life.Engine.Usage.{counted}
use uas_sustainment_workbenc.Life.Engine.Board.{grounding_reasons, board}
use uas_sustainment_workbenc.Life.Engine.Board.Worst.{Grounded, board-Grounded_iff}
use uas_sustainment_workbenc.Life.Grounded.{
  Wording, StateAt, GroundedFlight, grounds, judged_at, dated_le, in_turn, grounded_flights,
}
use uas_sustainment_workbenc.Life.Grounded.Told.{Pairwise, Finds, is_judged, Told, judge_all-Told}

length-insert :
    (r : FlightRecord) (rs : List FlightRecord) → length (insert dated_le r rs) ≡ length rs + 1
length-insert r [] = refl
length-insert r (s ∷ rs) = ground (arith, length-insert r rs)

length-sort_by : (rs : List FlightRecord) → length (sort_by dated_le rs) ≡ length rs
length-sort_by [] = refl
length-sort_by (r ∷ rs) =
    length-insert r (sort_by dated_le rs) ∙ ap (λ n. n + 1) (length-sort_by rs) ∙ omega arith

length-parted :
    (p : FlightRecord → Bool) (rs : List FlightRecord)
    → length (keep p rs) + length (keep (λ r. not (p r)) rs) ≡ length rs
length-parted p [] = refl
length-parted p (r ∷ rs) = ground (arith, length-parted p rs)

length-in_turn : (rs : List FlightRecord) → length (in_turn rs) ≡ length rs
unfolding in_turn
length-in_turn rs =
    length-append (sort_by dated_le (keep (λ r. is_known (judged_at r)) rs))
      (keep (λ r. not (is_known (judged_at r))) rs)
    ∙ omega (
      arith,
      length-sort_by (keep (λ r. is_known (judged_at r)) rs),
      length-parted (λ r. is_known (judged_at r)) rs,
    )

Pairwise-length :
    {A B : Type 0} (R : A → B → Type 0) (xs : List A) (ys : List B)
    → Pairwise R xs ys
    → length xs ≡ length ys
Pairwise-length R [] [] h = refl
Pairwise-length R [] (y ∷ ys) h = absurd h
Pairwise-length R (x ∷ xs) [] h = absurd h
Pairwise-length R (x ∷ xs) (y ∷ ys) h = rw (Pairwise-length R xs ys h.1) refl

-- Take the logs that had ended by the date, those with a start first and by it. The report counts them; it
-- has judged those that are due (nothing excludes them, they have a start, are no duplicate and show a
-- flight) and start in a known state. It has a finding of each of them that starts in a grounding state, with
-- that state and its reasons, and of no other; it lists each that is not judged, with its start and a reason
-- that is true of it, and no other. Judged and listed logs together are as many as the logs.
pub grounded_flights-Told :
    (w : Wording) (key : String) (records : List FlightRecord) (state_at : StateAt)
    (until : Option DateTime) (tolerance : ℤ) (excluded : Option String)
    → let g = grounded_flights w key records state_at until tolerance excluded in
      let ended = keep (λ r. counted r until true) records in
      let unchecked = (reconcile records (some key) tolerance).unchecked in
      Told w key state_at unchecked excluded (length ended) g (in_turn ended)
      × (g.judged + length g.not_judged ≡ g.logs)
unfolding grounded_flights
grounded_flights-Told w key records state_at until tolerance excluded =
    let ended = keep (λ r. counted r until true) records in
    let unchecked = (reconcile records (some key) tolerance).unchecked in
    let judged = is_judged w key state_at unchecked excluded in
    let (o, a, b, c) =
      judge_all-Told w key state_at unchecked excluded (length ended) (in_turn ended) in
    (
      (o, a, b, c),
      omega (
        arith,
        o,
        a,
        length-in_turn ended,
        length-parted judged (in_turn ended),
        Pairwise-length _ _ _ c,
      ),
    )

grounds-Grounded : (s : Status) → grounds (known s) ≡ true → Grounded (known s)
unfolding grounds
grounds-Grounded aog h = inl refl
grounds-Grounded in_maintenance h = inr (inl refl)
grounds-Grounded unserviceable h = inr (inr refl)
grounds-Grounded deferred_defects h = cc h
grounds-Grounded serviceable h = cc h

-- A board in a grounding state has its reasons.
board-reasons :
    (due : DueList) (s : Status)
    → (board due).status ≡ known s
    → grounds (known s) ≡ true
    → grounding_reasons due ≢ []
unfolding board
board-reasons due s h g = elim (Bool-cases due.has_record) [
  | inl held ↦ (board-Grounded_iff due held).0 (subst Grounded (sym h) (grounds-Grounded s g))
  | inr not_held ↦ no_record_case not_held
]
  where
    no_status : due.has_record ≡ false → (board due).status ≡ unknown no_record
    no_status q = rw (q, board) refl

    no_record_case : due.has_record ≡ false → grounding_reasons due ≢ []
    no_record_case q = cc (h, no_status q)

map-empty : (f : BoardReason → String) (rs : List BoardReason) → rs ≢ [] → map f rs ≢ []
map-empty f [] h = absurd (h refl)
map-empty f (r ∷ rs) h = λ q. cc q

Pairwise-reasons :
    (w : Wording) (key : String) (state_at : StateAt) (unchecked : Dict Reason)
    (excluded : Option String) (fs : List GroundedFlight) (rs : List FlightRecord)
    → ((t : DateTime) → (state_at t).1 ≡ board (state_at t).0)
    → Pairwise (Finds w key state_at unchecked excluded) fs rs
    → All (λ f. f.reasons ≢ []) fs
Pairwise-reasons w key state_at unchecked excluded [] rs boards h = tt
Pairwise-reasons w key state_at unchecked excluded (f ∷ fs) [] boards h = absurd h
Pairwise-reasons w key state_at unchecked excluded (f ∷ fs) (r ∷ rs) boards
      ((_, _, state, g, told), h) =
    (
      subst (λ xs. xs ≢ []) (sym told)
          (map-empty w.words _ (
            board-reasons (state_at f.utc_start).0 f.status
              (sym (ap (λ b. b.status) (boards f.utc_start)) ∙ state) g)),
      Pairwise-reasons w key state_at unchecked excluded fs rs boards h,
    )

-- Where the state at an instant is a due list and the board made of it, no finding is without a reason: an
-- aircraft in a grounding state has at least one grounding reason.
pub grounded_flights-reasons :
    (w : Wording) (key : String) (records : List FlightRecord) (state_at : StateAt)
    (until : Option DateTime) (tolerance : ℤ) (excluded : Option String)
    → ((t : DateTime) → (state_at t).1 ≡ board (state_at t).0)
    → All
        (λ f. f.reasons ≢ [])
        (grounded_flights w key records state_at until tolerance excluded).findings
unfolding grounded_flights
grounded_flights-reasons w key records state_at until tolerance excluded boards =
    let ended = keep (λ r. counted r until true) records in
    let unchecked = (reconcile records (some key) tolerance).unchecked in
    let (o, a, b, c) =
      judge_all-Told w key state_at unchecked excluded (length ended) (in_turn ended) in
    Pairwise-reasons w key state_at unchecked excluded _ _ boards b
