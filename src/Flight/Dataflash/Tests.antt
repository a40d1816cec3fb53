-- ===== src/Flight/Dataflash/Tests.antt =====
-- A log of one definition and one message of the type it defines.
use uas_sustainment_workbenc.Base.{
  ℕ, suc, zero, ◌==◌, ◌≡◌, refl, Option, none, some, List, [], ◌∷◌, ◌++◌, arith, if◌then◌else◌,
}
use uas_sustainment_workbenc.Flight.Dataflash.{
  Framing, framed, first_lengths, format_need, check_framing, refused, noise,
}
use uas_sustainment_workbenc.Flight.Dataflash.Walked.{check_framing-ends}
use uas_sustainment_workbenc.Flight.Dataflash.Accepts.{
  IsLog, ends, message, definition, check_framing-IsLog,
}

-- Q is eight bytes, B is one.
abbrev sizes : ℕ → Option ℕ
sizes c = if c == 81 then some 8 else if c == 66 then some 1 else none

abbrev zeros : ℕ → List ℕ
zeros zero = []
zeros (suc n) = 0 ∷ zeros n

-- "EV", "QB" and no labels
abbrev event_format : List ℕ
event_format = 69 ∷ 86 ∷ 0 ∷ 0 ∷ 81 ∷ 66 ∷ zeros 78

abbrev event_log : List ℕ
event_log = 163 ∷ 149 ∷ 128 ∷ 7 ∷ 12 ∷ (event_format ++ (163 ∷ 149 ∷ 7 ∷ (zeros 9 ++ [])))

event_log-IsLog : IsLog sizes first_lengths event_log
unfolding format_need
event_log-IsLog =
    definition first_lengths 7 12 event_format _ refl refl (omega arith) refl refl
      (message _ 7 (zeros 9) [] refl refl (ends _))

check_framing-IsLog_example : check_framing sizes event_log ≡ some framed
check_framing-IsLog_example = check_framing-IsLog sizes event_log event_log-IsLog

check_framing-ends_example : (r : Framing) × (check_framing sizes (1 ∷ 2 ∷ 3 ∷ 4 ∷ []) ≡ some r)
check_framing-ends_example = check_framing-ends sizes (1 ∷ 2 ∷ 3 ∷ 4 ∷ [])

noise_refused : check_framing sizes (1 ∷ 2 ∷ 3 ∷ 4 ∷ []) ≡ some (refused (noise 0))
unfolding check_framing
noise_refused = refl
