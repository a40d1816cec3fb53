-- ===== src/Ledger/Project/Liveness/Exact.antt =====
-- `liveness` decides exactly: an entry is live when no live entry supersedes it.
use uas_sustainment_workbenc.Base.{
  ℕ, ◌<◌, ◌≡◌, ◌≢◌, sym, ◌∙◌, ap, Bool, not, inl, inr, List, [], ◌∷◌, arith, All, any, Bool-cases,
}
use mathlib.Core.Path.{subst}
use uas_sustainment_workbenc.Base.Sort.{
  sort_by, insert, any-sort_by, All-sort_by, All-of_sorted, All-insert,
}
use uas_sustainment_workbenc.Ledger.Model.{Entry}
use uas_sustainment_workbenc.Ledger.Project.Order.{
  id_or_zero, has_id, live_from, liveness, newest_first, fold_le, note_superseded, is_dead,
}
use uas_sustainment_workbenc.Ledger.Project.Liveness.{
  IsStored, IsLedger, IsDescending, ends, noted, noted-live_from, noted-note_superseded,
  is_dead-noted, live_from-dead, live_from-live, All-live_from, none_ends, ends_self, none_has,
  All-IsStored,
}

-- Among the live entries there is one with the id exactly when no live entry supersedes that id.
abbrev pub LiveIffUnended : List Entry → Entry → Type 0
LiveIffUnended live e = any (has_id (id_or_zero e)) live ≡ not (any (ends (id_or_zero e)) live)

abbrev Decided : List Entry × List (ℕ × ℕ) → Entry → Type 0
Decided r e = any (has_id (id_or_zero e)) r.0 ≡ not (noted r.1 (id_or_zero e))

Decided-older :
    (e : Entry) (r : List Entry × List (ℕ × ℕ)) (xs : List Entry)
    → IsStored e
    → All (λ x. id_or_zero x < id_or_zero e) xs
    → All (Decided r) xs
    → All (Decided (e ∷ r.0, r.1)) xs
Decided-older e r [] s lt h = tt
Decided-older e r (x ∷ xs) s lt h =
    (ground (arith, s.present, lt.0, h.0), Decided-older e r xs s lt.1 h.1)

Decided-live_from :
    (es : List Entry) (by : List (ℕ × ℕ)) → IsDescending es → All (Decided (live_from es by)) es
Decided-live_from [] by d = tt
Decided-live_from (e ∷ es) by d = elim (Bool-cases (is_dead by e)) [
  | inl dead ↦
      subst (λ r. All (Decided r) (e ∷ es)) (sym (live_from-dead e es by dead))
        (
          ground (
            arith,
            noted-live_from es by (id_or_zero e) d.2,
            is_dead-noted by e d.0,
            none_has (id_or_zero e) (live_from es by).0
                (All-live_from IsStored es by (All-IsStored es d.2))
                (All-live_from (λ x. id_or_zero x < id_or_zero e) es by d.1),
          ),
          Decided-live_from es by d.2,
        )
  | inr alive ↦
      let by' = note_superseded by e in
      subst (λ r. All (Decided r) (e ∷ es)) (sym (live_from-live e es by alive))
        (
          ground (
            arith,
            d.0.present,
            noted-live_from es by' (id_or_zero e) d.2,
            noted-note_superseded by e (id_or_zero e) d.0,
            is_dead-noted by e d.0,
            none_ends (id_or_zero e) (live_from es by').0
                (All-live_from IsStored es by' (All-IsStored es d.2))
                (All-live_from (λ x. id_or_zero x < id_or_zero e) es by' d.1),
            ends_self e d.0,
          ),
          Decided-older e (live_from es by') es d.0 d.1 (Decided-live_from es by' d.2),
        )
]

LiveIffUnended-All :
    (r : List Entry × List (ℕ × ℕ)) (xs : List Entry)
    → ((n : ℕ) → noted r.1 n ≡ any (ends n) r.0)
    → All (Decided r) xs
    → All (LiveIffUnended r.0) xs
LiveIffUnended-All r [] q h = tt
LiveIffUnended-All r (x ∷ xs) q h = (h.0 ∙ ap not (q (id_or_zero x)), LiveIffUnended-All r xs q h.1)

-- Sorting from the newest gives strictly falling ids.
All-below :
    (e x : Entry) (xs : List Entry)
    → id_or_zero x < id_or_zero e
    → All (λ y. id_or_zero y < id_or_zero x) xs
    → All (λ y. id_or_zero y < id_or_zero e) xs
All-below e x [] lt h = tt
All-below e x (y ∷ ys) lt h = (below lt h.0, All-below e x ys lt h.1)
  where
    below : id_or_zero x < id_or_zero e → id_or_zero y < id_or_zero x → id_or_zero y < id_or_zero e
    below p q = omega arith

insert-IsDescending :
    (e : Entry) (es : List Entry)
    → IsStored e
    → All (λ x. id_or_zero x ≢ id_or_zero e) es
    → IsDescending es
    → IsDescending (insert newest_first e es)
insert-IsDescending e [] s ne d = (s, tt, tt)
insert-IsDescending e (x ∷ xs) s ne d = elim (Bool-cases (newest_first e x)) [
  | inl first_now ↦
      rw first_now
        (s, ((let h = ne.0 in ground arith), All-below e x xs (ground (arith, ne.0)) d.1), d)
  | inr later ↦ rw later (
    d.0,
    All-insert newest_first (λ y. id_or_zero y < id_or_zero x) e xs (ground arith) d.1,
    insert-IsDescending e xs s ne.1 d.2,
  )
]

sort_by-IsDescending : (es : List Entry) → IsLedger es → IsDescending (sort_by newest_first es)
sort_by-IsDescending [] h = tt
sort_by-IsDescending (e ∷ es) h =
    insert-IsDescending e (sort_by newest_first es) h.0
      (All-sort_by newest_first (λ x. id_or_zero x ≢ id_or_zero e) es h.1)
      (sort_by-IsDescending es h.2)

All-resorted :
    (le : Entry → Entry → Bool) (live xs : List Entry)
    → All (LiveIffUnended live) xs
    → All (LiveIffUnended (sort_by le live)) xs
All-resorted le live [] h = tt
All-resorted le live (x ∷ xs) h = (
  any-sort_by le (has_id (id_or_zero x)) live
      ∙ h.0
      ∙ ap not (sym (any-sort_by le (ends (id_or_zero x)) live)),
  All-resorted le live xs h.1,
)

-- In a ledger whose rows have distinct ids and supersede older rows only, a row is live exactly when no
-- live row supersedes it.
pub liveness-exact :
    (entries : List Entry) → IsLedger entries → All (LiveIffUnended (liveness entries).0) entries
unfolding liveness
liveness-exact entries h =
    let newest = sort_by newest_first entries in
    let d = sort_by-IsDescending entries h in
    let (live, by) = live_from newest [] in
    All-of_sorted newest_first (LiveIffUnended (sort_by (fold_le entries) live)) entries (
      All-resorted (fold_le entries) live newest (
        LiveIffUnended-All (live, by) newest (λ n. noted-live_from newest [] n d)
          (Decided-live_from newest [] d)))
