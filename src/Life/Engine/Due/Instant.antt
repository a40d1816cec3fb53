-- ===== src/Life/Engine/Due/Instant.antt =====
-- The due list is of an instant, not of the clock it was asked on.
use uas_sustainment_workbenc.Base.{ℤ, String, ◌≡◌, refl, ap, Option, some, List}
use uas_sustainment_workbenc.Base.Time.{DateTime, in_utc}
use uas_sustainment_workbenc.Flight.Record.{FlightRecord}
use uas_sustainment_workbenc.Life.Model.{Component, MaintenanceRecord}
use uas_sustainment_workbenc.Life.Policy.{LifePolicy}
use uas_sustainment_workbenc.Life.Engine.Due.{due_list, due_list_at}
use uas_sustainment_workbenc.Life.Engine.Board.{board}

in_utc-same :
    (s t : DateTime) (p q : ℤ)
    → s.utc ≡ t.utc
    → s.offset ≡ some p
    → t.offset ≡ some q
    → in_utc s ≡ in_utc t
unfolding in_utc
in_utc-same s t p q same f g = rw (f, g, same) refl

-- Two datetimes of one instant, each written with an offset from UTC, have the same due list and the same
-- board, whatever the offsets.
pub due_list-same_instant :
    (key : String) (m : Option MaintenanceRecord) (cs : List Component)
    (flights_of : String → List FlightRecord) (policy : LifePolicy) (tolerance : ℤ) (s t : DateTime)
    (p q : ℤ)
    → s.utc ≡ t.utc
    → s.offset ≡ some p
    → t.offset ≡ some q
    → (due_list key m cs flights_of policy s tolerance
        ≡ due_list key m cs flights_of policy t tolerance)
      × (board (due_list key m cs flights_of policy s tolerance)
          ≡ board (due_list key m cs flights_of policy t tolerance))
unfolding due_list
due_list-same_instant key m cs flights_of policy tolerance s t p q same f g =
    let at = in_utc-same s t p q same f g in
    let due = ap (due_list_at key m cs flights_of policy tolerance) at in (due, ap board due)
