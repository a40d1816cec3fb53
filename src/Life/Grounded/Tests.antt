-- ===== src/Life/Grounded/Tests.antt =====
-- The grounded flights of an aircraft whose records never clear it.
use uas_sustainment_workbenc.Base.{
  ◌+◌, ◌≡◌, ◌≢◌, some, refl, pos, true, String, All, keep, length, none, [],
}
use uas_sustainment_workbenc.Base.Time.{DateTime}
use uas_sustainment_workbenc.Flight.Reconcile.{reconcile}
use uas_sustainment_workbenc.Flight.Tests.{logs}
use uas_sustainment_workbenc.Life.Model.{BoardReason, work, item}
use uas_sustainment_workbenc.Life.Tests.{sheet}
use uas_sustainment_workbenc.Life.Engine.Usage.{counted}
use uas_sustainment_workbenc.Life.Engine.Board.{board}
use uas_sustainment_workbenc.Life.Grounded.{Wording, StateAt, in_turn, grounded_flights}
use uas_sustainment_workbenc.Life.Grounded.Told.{Told}
use uas_sustainment_workbenc.Life.Grounded.Each.{grounded_flights-Told, grounded_flights-reasons}

abbrev reason_words : BoardReason → String
reason_words (work w) = w.description
reason_words (item i) = i.subject

abbrev a_time : DateTime → String
a_time t = "then"

abbrev wording : Wording
wording = record { words = reason_words; stamp = a_time }

-- The same due list at every instant.
abbrev never_cleared : StateAt
never_cleared t = (sheet, board sheet)

-- Both logs of the aircraft are findings.
two_findings :
    length (grounded_flights wording "uav-1" logs never_cleared none (pos 60000) none).findings ≡ 2
unfolding grounded_flights board reconcile
two_findings = refl

grounded_flights-reasons_example :
    All
      (λ f. f.reasons ≢ [])
      (grounded_flights wording "uav-1" logs never_cleared none (pos 60000) none).findings
grounded_flights-reasons_example =
    grounded_flights-reasons wording "uav-1" logs never_cleared none (pos 60000) none (λ t. refl)

grounded_flights-Told_example :
    let g = grounded_flights wording "uav-1" logs never_cleared none (pos 60000) none in
    let ended = keep (λ r. counted r none true) logs in
    let unchecked = (reconcile logs (some "uav-1") (pos 60000)).unchecked in
    Told wording "uav-1" never_cleared unchecked none (length ended) g (in_turn ended)
    × (g.judged + length g.not_judged ≡ g.logs)
grounded_flights-Told_example =
    grounded_flights-Told wording "uav-1" logs never_cleared none (pos 60000) none
