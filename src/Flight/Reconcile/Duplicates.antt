-- ===== src/Flight/Reconcile/Duplicates.antt =====
-- One log uploaded twice is counted once.
use uas_sustainment_workbenc.Base.{
  ◌≡◌, false, none, some, List, [], ◌∷◌, ◌++◌, All, All-append, first, inl, inr, Option-cases,
  Bool-cases,
}
use uas_sustainment_workbenc.Base.Dict.{Dict, put}
use uas_sustainment_workbenc.Flight.Record.{Reason, duplicate_of}
use uas_sustainment_workbenc.Flight.Reconcile.{Checkable, same_log, drop_from, drop_duplicates}
use uas_sustainment_workbenc.Flight.Reconcile.Steps.{drop_from-first, drop_from-duplicate}

-- No log is the same as an earlier one.
abbrev pub IsDistinct : List Checkable → Type 0
IsDistinct [] = Unit
IsDistinct (c ∷ rest) = All (λ d. same_log d c ≡ false) rest × IsDistinct rest

IsDistinct-snoc :
    (kept : List Checkable) (c : Checkable)
    → first (same_log c) kept ≡ none
    → IsDistinct kept
    → IsDistinct (kept ++ c ∷ [])
IsDistinct-snoc [] c e h = (tt, tt)
IsDistinct-snoc (k ∷ kept) c e h = elim (Bool-cases (same_log c k)) [
  | inl same ↦ absurd (absurd_some (rw same at e))
  | inr other ↦ (
    All-append (λ d. same_log d k ≡ false) kept (c ∷ []) h.0 (other, tt),
    IsDistinct-snoc kept c (rw other at e) h.1,
  )
]
  where
    absurd_some : some k ≡ none → ⊥
    absurd_some p = cc

drop_from-IsDistinct :
    (kept logs : List Checkable) (u : Dict Reason)
    → IsDistinct kept
    → IsDistinct (drop_from kept logs u).0
unfolding drop_from
drop_from-IsDistinct kept [] u h = h
drop_from-IsDistinct kept (c ∷ rest) u h = elim (Option-cases (first (same_log c) kept)) [
  | inl e ↦
      rw (drop_from-first kept rest c u e)
        (drop_from-IsDistinct (kept ++ c ∷ []) rest u (IsDistinct-snoc kept c e h))
  | inr (k, e) ↦
      rw (drop_from-duplicate kept rest c u e)
        (drop_from-IsDistinct kept rest (put u c.log.log_ref (duplicate_of k.log.log_ref)) h)
]

-- Of the logs of one aircraft in order, no two that are kept have the same UTC start and the same
-- span, each within the duplicate window.
pub drop_duplicates-IsDistinct :
    (logs : List Checkable) (u : Dict Reason) → IsDistinct (drop_duplicates logs u).0
unfolding drop_duplicates
drop_duplicates-IsDistinct logs u = drop_from-IsDistinct [] logs u tt
