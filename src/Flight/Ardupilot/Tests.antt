-- ===== src/Flight/Ardupilot/Tests.antt =====
-- A flight of two hops.
use uas_sustainment_workbenc.Base.{
  pos, ◌+◌, ◌-◌, ◌+ℤ◌, ◌-ℤ◌, ◌≡◌, refl, length, List, [], ◌∷◌, arith,
}
use uas_sustainment_workbenc.Flight.Ardupilot.{Sample, is_set, rising, falling, time_while_set}
use uas_sustainment_workbenc.Flight.Ardupilot.Signals.{one_if, ends_set, rising-falling}
use uas_sustainment_workbenc.Flight.Ardupilot.Held.{holds_at, count_from, time_while_set-held}

abbrev hops : List Sample
hops = (20, pos 1000) ∷ (30, pos 0) ∷ (45, pos 1000) ∷ (50, pos 1000) ∷ []

hops_time : time_while_set ((10, pos 0) ∷ hops) ≡ pos 15
unfolding time_while_set ◌+ℤ◌ ◌-ℤ◌
hops_time = refl

rising-falling_example :
    length (rising ((10, pos 0) ∷ hops)) + one_if (is_set (pos 0))
    ≡ length (falling ((10, pos 0) ∷ hops)) + one_if (ends_set (pos 0) hops)
rising-falling_example = rising-falling 10 (pos 0) hops

time_while_set-held_example :
    time_while_set ((10, pos 0) ∷ hops) ≡ pos (count_from (holds_at (pos 0) hops) 10 (50 - 10))
time_while_set-held_example =
    time_while_set-held 10 (pos 0) hops 50
      (omega arith, (omega arith, (omega arith, (omega arith, refl))))
