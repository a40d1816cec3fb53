-- ===== src/Flight/Px4/Tests.antt =====
-- A counter whose low word is a negative parameter.
use uas_sustainment_workbenc.Base.{pos, negsuc, ◌/◌, ◌%◌, ◌≡◌, refl, some, [], ◌∷◌, arith}
use uas_sustainment_workbenc.Flight.Record.{known}
use uas_sustainment_workbenc.Flight.Px4.{word, counter_value, px4_arm_cycles}
use uas_sustainment_workbenc.Flight.Px4.Counter.{signed, counter_value-signed}

low_is_negative : signed (7000000000 % word) ≡ negsuc 1589934591
low_is_negative = refl

counter_value-signed_example :
    counter_value (signed (7000000000 / word)) (signed (7000000000 % word)) ≡ pos 7000000000
counter_value-signed_example = counter_value-signed 7000000000 (omega arith)

-- A log that opens armed, and is armed again later.
two_cycles : px4_arm_cycles (some (some (pos 2000, pos 2000 ∷ pos 1000 ∷ pos 2000 ∷ []))) ≡ known 2
unfolding px4_arm_cycles
two_cycles = refl
