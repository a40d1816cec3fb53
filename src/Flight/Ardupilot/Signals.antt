-- ===== src/Flight/Ardupilot/Signals.antt =====
-- The edges of a state signal.
use uas_sustainment_workbenc.Base.{
  ℕ, ℤ, ◌+◌, ◌≡◌, refl, Bool, true, false, not, ◌&&◌, length, List, [], ◌∷◌, arith, if◌then◌else◌,
}
use uas_sustainment_workbenc.Flight.Ardupilot.{Sample, is_set, rising, falling}

abbrev pub one_if : Bool → ℕ
one_if true = 1
one_if false = 0

-- The value of the last sample.
abbrev pub ends_set : ℤ → List Sample → Bool
ends_set v [] = is_set v
ends_set v ((t, x) ∷ rest) = ends_set x rest

-- A signal rises and falls by turns: its rises with the one it may begin with are its falls with the one it
-- has yet to make, if it ends set.
pub rising-falling :
    (s : ℕ) (v : ℤ) (rest : List Sample)
    → length (rising ((s, v) ∷ rest)) + one_if (is_set v)
      ≡ length (falling ((s, v) ∷ rest)) + one_if (ends_set v rest)
unfolding rising falling
rising-falling s v [] = refl
rising-falling s v ((t, x) ∷ rest) =
    turn (is_set v) (is_set x) t (rising ((t, x) ∷ rest)) (falling ((t, x) ∷ rest))
      (ends_set x rest) (rising-falling t x rest)
  where
    turn :
        (a b : Bool) (t : ℕ) (up down : List ℕ) (e : Bool)
        → length up + one_if b ≡ length down + one_if e
        → length (if not a && b then t ∷ up else up) + one_if a
          ≡ length (if a && not b then t ∷ down else down) + one_if e
    turn true true t up down e h = h
    turn true false t up down e h = omega (arith, h)
    turn false true t up down e h = omega (arith, h)
    turn false false t up down e h = h
