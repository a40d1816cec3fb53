-- ===== src/Life/Engine/Board/Worst.antt =====
-- What the board state says of the due list it is derived from.
use uas_sustainment_workbenc.Base.{
  ◌≡◌, ◌≢◌, ◌↔◌, refl, sym, Bool, true, false, keep, any, List, [], ◌∷◌, ◌++◌, map, arith, ◌⊎◌, inl,
  inr,
}
use mathlib.Core.Path.{subst}
use uas_sustainment_workbenc.Flight.Record.{Maybe, known}
use uas_sustainment_workbenc.Life.Model.{
  WorkOrder, DueItem, DueList, Status, aog, in_maintenance, unserviceable, serviceable, work, item,
}
use uas_sustainment_workbenc.Life.Engine.Board.{
  is_awaiting, is_in_work, is_deferred, is_overdue, is_not_known, is_within, grounding_reasons,
  status_flying, status_of, board,
}

-- The states of GROUNDING in life/grounded.py: known, and ones in which the aircraft does not fly.
abbrev pub Grounded : Maybe Status → Type 0
Grounded s = (s ≡ known aog) ⊎ (s ≡ known in_maintenance) ⊎ (s ≡ known unserviceable)

keep-any : {A : Type 0} (p : A → Bool) (xs : List A) → any p xs ≡ false → keep p xs ≡ []
keep-any p [] h = refl
keep-any p (x ∷ xs) h = ground (arith, keep-any p xs)

any-keep : {A : Type 0} (p : A → Bool) (xs : List A) → keep p xs ≡ [] → any p xs ≡ false
any-keep p [] h = refl
any-keep p (x ∷ xs) h = ground (arith, any-keep p xs)

board-status : (due : DueList) → due.has_record ≡ true → (board due).status ≡ status_of due
unfolding board
board-status due h = rw (h, board)

not_Grounded-status_flying : (due : DueList) → ¬ (Grounded (status_flying due))
unfolding status_flying
not_Grounded-status_flying due g = ground arith

-- The first of three lists that holds something decides, as their concatenation does.
worst_first :
    (a b : List WorkOrder) (c : List DueItem) (flying : Maybe Status)
    → ¬ (Grounded flying)
    → Grounded (elim a [
      | _ ∷ _ ↦ known aog
      | [] ↦ elim b [
        | _ ∷ _ ↦ known in_maintenance
        | [] ↦ elim c [ _ ∷ _ ↦ known unserviceable | [] ↦ flying ]
      ]
    ])
      ↔ (map work a ++ (map work b ++ map item c) ≢ [])
worst_first (x ∷ a) b c f n = ((λ g e. cc), (λ g. inl refl))
worst_first [] (x ∷ b) c f n = ((λ g e. cc), (λ g. inr (inl refl)))
worst_first [] [] (x ∷ c) f n = ((λ g e. cc), (λ g. inr (inr refl)))
worst_first [] [] [] f n = ((λ g. absurd (n g)), (λ g. absurd (g refl)))

-- The board of an aircraft with a record is in a state that grounds it exactly when there is a grounding
-- reason: an order awaiting parts or in work, or a limit reached or past its tolerance.
pub board-Grounded_iff :
    (due : DueList)
    → due.has_record ≡ true
    → Grounded (board due).status ↔ (grounding_reasons due ≢ [])
unfolding board status_of status_flying grounding_reasons
board-Grounded_iff due h =
    subst (λ s. Grounded s ↔ (grounding_reasons due ≢ [])) (sym (board-status due h))
      (worst_first (keep is_awaiting due.work_orders) (keep is_in_work due.work_orders)
        (keep is_overdue due.items) (status_flying due) (not_Grounded-status_flying due))

-- The board of an aircraft with a record reads serviceable exactly when no work order is awaiting parts, in
-- work or deferred, and no item is overdue, within its tolerance, or not known.
pub board-serviceable_iff :
    (due : DueList)
    → due.has_record ≡ true
    → ((board due).status ≡ known serviceable) ↔ (
        (any is_awaiting due.work_orders ≡ false)
        × (any is_in_work due.work_orders ≡ false)
        × (any is_deferred due.work_orders ≡ false)
        × (any is_overdue due.items ≡ false)
        × (any is_within due.items ≡ false)
        × (any is_not_known due.items ≡ false))
unfolding board status_of status_flying
board-serviceable_iff due h = (
  (λ e. ground (
    arith,
    any-keep is_awaiting due.work_orders,
    any-keep is_in_work due.work_orders,
    any-keep is_deferred due.work_orders,
    any-keep is_overdue due.items,
    any-keep is_within due.items,
    any-keep is_not_known due.items,
  )),
  (λ q. ground (
    arith,
    keep-any is_awaiting due.work_orders,
    keep-any is_in_work due.work_orders,
    keep-any is_deferred due.work_orders,
    keep-any is_overdue due.items,
    keep-any is_within due.items,
    keep-any is_not_known due.items,
  )),
)
