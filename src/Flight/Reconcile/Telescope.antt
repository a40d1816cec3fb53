-- ===== src/Flight/Reconcile/Telescope.antt =====
-- What the pairs of `reconcile` add up to.
use uas_sustainment_workbenc.Base.{
  ℤ, pos, ◌+ℤ◌, ◌-ℤ◌, int_laws, pos_part, neg_part, ap, String, ◌≡◌, List, [], ◌∷◌,
}
use uas_sustainment_workbenc.Flight.Reconcile.{
  Checkable, Coverage, unlogged, covered, pair_coverage,
}

-- The sum of what the pairs leave uncovered.
pub total_unlogged : List Coverage → ℤ
total_unlogged [] = pos 0
total_unlogged (c ∷ rest) = c.unlogged_s +ℤ total_unlogged rest

-- The flight of every log but the last.
pub flown_before_last : List Checkable → ℤ
flown_before_last [] = pos 0
flown_before_last (c ∷ []) = pos 0
flown_before_last (c ∷ d ∷ rest) = c.flight_s +ℤ flown_before_last (d ∷ rest)

abbrev pub last_of : Checkable → List Checkable → Checkable
last_of c [] = c
last_of c (d ∷ rest) = last_of d rest

-- The flight the logs show before the last one, with the flight no log covers, is what the lifetime
-- counter advanced from the first boot to the last.
pub unlogged_telescopes :
    (key : String) (c : Checkable) (rest : List Checkable)
    → total_unlogged (pair_coverage key (c ∷ rest)) +ℤ flown_before_last (c ∷ rest)
      ≡ (last_of c rest).lifetime.at_boot_s -ℤ c.lifetime.at_boot_s
unfolding pair_coverage covered unlogged total_unlogged flown_before_last
unlogged_telescopes key c [] = omega int_laws
unlogged_telescopes key c (d ∷ rest) =
    let ih = unlogged_telescopes key d rest in omega (int_laws, ap pos_part ih, ap neg_part ih)
