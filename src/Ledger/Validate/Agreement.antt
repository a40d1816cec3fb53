-- ===== src/Ledger/Validate/Agreement.antt =====
-- The board and the write rules at a life limit.
use uas_sustainment_workbenc.Base.{
  ℕ, String, ℤ, pos, negsuc, pos_part, neg_part, ◌+◌, ◌-◌, ◌*◌, ◌-ℤ◌, ◌*ℤ◌, ltb_ℤ, leb_ℤ, ◌≡◌, refl,
  sym, ◌↔◌, true, arith, -ℤ_parts, if◌then◌else◌,
}
use mathlib.Core.Path.{subst}
use uas_sustainment_workbenc.Base.Time.{DateTime, in_utc, day_of, ordinal}
use uas_sustainment_workbenc.Life.Model.{Basis, hours, cycles, calendar, overdue, Component, Usage}
use uas_sustainment_workbenc.Life.Policy.{LifeRule}
use uas_sustainment_workbenc.Life.Engine.Rounding.{
  hours_of, round_div, round_3, end_of_month_after, days_between,
}
use uas_sustainment_workbenc.Life.Engine.Items.{state_of, measure, component_item}
use uas_sustainment_workbenc.Ledger.Validate.Transitions.{limit_past}

-- A number of thousandths, in millionths.
thousand_parts :
    (a : ℤ)
    → pos_part (a *ℤ pos 1000) + 1000 * neg_part a ≡ neg_part (a *ℤ pos 1000) + 1000 * pos_part a
unfolding ◌*ℤ◌
thousand_parts a = ground arith

round_div_exact : (n k : ℕ) → n ≡ 1000 * k → round_div n 1000 ≡ k
unfolding round_div
round_div_exact n k h = ground (arith, h)

-- What is nothing or less rounds to nothing or less.
round_3_nonpos : (x : ℤ) → leb_ℤ x (pos 0) ≡ true → leb_ℤ (round_3 x) (pos 0) ≡ true
unfolding round_3
round_3_nonpos (pos n) h = let z : n ≡ 0 = ground (arith, h) in rw z refl
round_3_nonpos (negsuc n) h = ground arith

-- A number of whole thousandths that rounds to nothing or less is nothing or less.
round_3_exact :
    (x : ℤ) (y z : ℕ)
    → pos_part x + 1000 * z ≡ neg_part x + 1000 * y
    → leb_ℤ (round_3 x) (pos 0) ≡ true
    → leb_ℤ x (pos 0) ≡ true
unfolding round_3
round_3_exact (pos n) y z h k =
    let e = round_div_exact n (y - z) (omega (arith, h)) in ground (arith, e, h, k)
round_3_exact (negsuc n) y z h k = ground arith

-- With no tolerance the state is overdue exactly below zero.
state_of-overdue_iff :
    (remaining limit fraction : ℤ)
    → (state_of remaining limit (pos 0) fraction ≡ overdue) ↔ (ltb_ℤ remaining (pos 0) ≡ true)
unfolding state_of
state_of-overdue_iff r l f = (
  ground (arith, -ℤ_parts (pos 0) r, thousand_parts (pos 0 -ℤ r)),
  ground (arith, -ℤ_parts (pos 0) r, thousand_parts (pos 0 -ℤ r)),
)

-- At most nothing remains exactly where the item is reached or past.
reached_iff :
    (r l f : ℤ)
    → ((if leb_ℤ r (pos 0) then overdue else state_of r l (pos 0) f) ≡ overdue)
      ↔ (leb_ℤ r (pos 0) ≡ true)
reached_iff r l f =
    (ground (arith, state_of-overdue_iff r l f), ground (arith, state_of-overdue_iff r l f))

left_iff : (limit used : ℤ) → (leb_ℤ (limit -ℤ used) (pos 0) ≡ true) ↔ (leb_ℤ limit used ≡ true)
left_iff limit used = (ground (arith, -ℤ_parts limit used), ground (arith, -ℤ_parts limit used))

whole_parts :
    (limit k used : ℤ)
    → limit ≡ k *ℤ pos 1000
    → pos_part (limit -ℤ used *ℤ pos 1000) + 1000 * (neg_part k + pos_part used)
      ≡ neg_part (limit -ℤ used *ℤ pos 1000) + 1000 * (pos_part k + neg_part used)
whole_parts limit k used e =
    let a : pos_part limit + 1000 * neg_part k ≡ neg_part limit + 1000 * pos_part k =
      subst (λ l. pos_part l + 1000 * neg_part k ≡ neg_part l + 1000 * pos_part k) (sym e)
        (thousand_parts k) in
    omega (arith, -ℤ_parts limit (used *ℤ pos 1000), thousand_parts used, a)

-- Whether a limit in hours is a number of whole thousandths of an hour.
abbrev pub IsWhole : Basis × ℤ → Type 0
IsWhole (hours, limit) = (k : ℤ) × (limit ≡ k *ℤ pos 1000)
IsWhole (cycles, limit) = Unit
IsWhole (calendar, limit) = Unit

-- A part that the write rules refuse to fit is overdue on the board: on every basis, for every limit, at the
-- same usage and the same instant.
pub limit_past-overdue :
    (key : String) (c : Component) (rule : LifeRule) (u : Usage) (as_of : DateTime) (fraction : ℤ)
    (basis : Basis) (limit : ℤ)
    → limit_past c u as_of (basis, limit) ≡ true
    → (component_item key c rule u (in_utc as_of) fraction (basis, limit)).state ≡ overdue
unfolding component_item measure limit_past
limit_past-overdue key c rule u as_of f hours limit h =
    let x = limit -ℤ hours_of u.hours_s *ℤ pos 1000 in
    (reached_iff (round_3 x) limit f).1
      (round_3_nonpos x ((left_iff limit (hours_of u.hours_s *ℤ pos 1000)).1 h))
limit_past-overdue key c rule u as_of f cycles limit h =
    (reached_iff (limit -ℤ u.cycles) (limit *ℤ pos 1000) f).1 ((left_iff limit u.cycles).1 h)
limit_past-overdue key c rule u as_of f calendar limit h =
    let due = ordinal (end_of_month_after c.in_service_since limit) in
    let scale = days_between due (ordinal c.in_service_since) in
    let left = days_between due (day_of (in_utc as_of)) in
    ground (arith, h, state_of-overdue_iff left (scale *ℤ pos 1000) f)

-- A part that is overdue on the board is one the write rules refuse to fit, where a limit in hours is a number of whole
-- thousandths of an hour.
pub overdue-limit_past :
    (key : String) (c : Component) (rule : LifeRule) (u : Usage) (as_of : DateTime) (fraction : ℤ)
    (basis : Basis) (limit : ℤ)
    → IsWhole (basis, limit)
    → (component_item key c rule u (in_utc as_of) fraction (basis, limit)).state ≡ overdue
    → limit_past c u as_of (basis, limit) ≡ true
unfolding component_item measure limit_past
overdue-limit_past key c rule u as_of f hours limit (k, e) h =
    let used = hours_of u.hours_s in
    let x = limit -ℤ used *ℤ pos 1000 in
    (left_iff limit (used *ℤ pos 1000)).0 (
      round_3_exact x (pos_part k + neg_part used) (neg_part k + pos_part used)
        (whole_parts limit k used e) ((reached_iff (round_3 x) limit f).0 h))
overdue-limit_past key c rule u as_of f cycles limit w h =
    (left_iff limit u.cycles).0 ((reached_iff (limit -ℤ u.cycles) (limit *ℤ pos 1000) f).0 h)
overdue-limit_past key c rule u as_of f calendar limit w h =
    let due = ordinal (end_of_month_after c.in_service_since limit) in
    let scale = days_between due (ordinal c.in_service_since) in
    let left = days_between due (day_of (in_utc as_of)) in
    ground (arith, h, state_of-overdue_iff left (scale *ℤ pos 1000) f)
