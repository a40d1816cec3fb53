-- ===== src/Ledger/Project/Places.antt =====
-- In a ledger a correction folds in the place of the entry it corrects.
use uas_sustainment_workbenc.Base.{
  ℕ, zero, suc, ◌<◌, ◌≤◌, ◌≡◌, refl, sym, ap, ◌∙◌, Bool, true, false, Option, none, some, List, [],
  ◌∷◌, length, All, arith, if◌then◌else◌,
}
use mathlib.Core.Path.{subst}
use uas_sustainment_workbenc.Ledger.Model.{Entry}
use uas_sustainment_workbenc.Ledger.Project.Order.{
  has_id, by_id, contains, root_from, root_id, id_or_zero, fold_key,
}
use uas_sustainment_workbenc.Ledger.Project.Liveness.{IsStored, IsLedger, All-IsStored_ledger}
use uas_sustainment_workbenc.Ledger.Project.Roots.{found, round, root_from-suc, root_id_lem}

-- What `by_id` finds is a row of that id.
abbrev IsRow : ℕ → Entry → Type 0
IsRow n x = IsStored x × (id_or_zero x ≡ n)

FoundRow : ℕ → Option Entry → Type 0
FoundRow n none = Unit
FoundRow n (some x) = IsRow n x

by_id-IsRow : (es : List Entry) (n : ℕ) → All IsStored es → FoundRow n (by_id es n)
unfolding by_id FoundRow
by_id-IsRow [] n st = tt
by_id-IsRow (e ∷ es) n st = later (by_id es n) (by_id-IsRow es n st.1)
  where
    at_head : (b : Bool) → has_id n e ≡ b → FoundRow n (if b then some e else none)
    at_head true q = (st.0, ground (arith, q, st.0.present))
    at_head false q = tt

    later :
        (o : Option Entry)
        → FoundRow n o
        → FoundRow n (elim o [ some x ↦ some x | none ↦ if has_id n e then some e else none ])
    later (some x) r = r
    later none r = at_head (has_id n e) refl

never_seen : (n : ℕ) (seen : List ℕ) → All (λ s. n < s) seen → contains n seen ≡ false
never_seen n [] h = refl
never_seen n (s ∷ seen) h = ground (arith, h.0, never_seen n seen h.1)

rounds_agree :
    (es : List Entry) (seen : List ℕ) (x : Entry) (f g : ℕ → Entry → Entry) (o : Option ℕ)
    → All IsStored es
    → All (λ s. id_or_zero x ≤ s) seen
    → ((m : ℕ) → o ≡ some m → m < id_or_zero x)
    → ((n : ℕ) (next : Entry) → IsRow n next → n < id_or_zero x → f n next ≡ g n next)
    → round es seen x f o ≡ round es [] x g o
unfolding FoundRow
rounds_agree es seen x f g none st h older go = refl
rounds_agree es seen x f g (some n) st h older go =
    agree_found (by_id es n) (by_id-IsRow es n st) (never_seen n seen (All-below_id seen h))
  where
    All-below_id : (ss : List ℕ) → All (λ s. id_or_zero x ≤ s) ss → All (λ s. n < s) ss
    All-below_id [] k = tt
    All-below_id (s ∷ ss) k = (omega (arith, k.0, older n refl), All-below_id ss k.1)

    agree_found :
        (r : Option Entry)
        → FoundRow n r
        → contains n seen ≡ false
        → found es seen x f n r ≡ found es [] x g n r
    agree_found none row unseen = refl
    agree_found (some next) row unseen = rw unseen (go n next row (older n refl))

-- Ids only fall along a chain of corrections, so the loop meets none it has seen.
root_from-unseen :
    (fuel : ℕ) (es : List Entry) (seen : List ℕ) (x : Entry)
    → All IsStored es
    → IsStored x
    → All (λ s. id_or_zero x ≤ s) seen
    → root_from fuel es seen x ≡ root_from fuel es [] x
unfolding root_from
root_from-unseen zero es seen x st sx h = refl
root_from-unseen (suc fuel) es seen x st sx h =
    root_from-suc fuel es seen x
    ∙ rounds_agree es seen x _ _ x.supersedes st h sx.older (λ n next row less.
      root_from-unseen fuel es (n ∷ seen) next st row.0
        (omega (arith, row.1), All-widen n next row less seen h)
      ∙ sym (root_from-unseen fuel es (n ∷ []) next st row.0 (omega (arith, row.1), tt)))
    ∙ sym (root_from-suc fuel es [] x)
  where
    All-widen :
        (n : ℕ) (next : Entry)
        → IsRow n next
        → n < id_or_zero x
        → (ss : List ℕ) → All (λ s. id_or_zero x ≤ s) ss
        → All (λ s. id_or_zero next ≤ s) ss
    All-widen n next row less [] k = tt
    All-widen n next row less (s ∷ ss) k =
        (omega (arith, k.0, row.1, less), All-widen n next row less ss k.1)

one_round :
    (fuel : ℕ) (es : List Entry) (c t : Entry) (n : ℕ)
    → c.supersedes ≡ some n
    → by_id es n ≡ some t
    → root_from (suc fuel) es [] c ≡ root_from fuel es (n ∷ []) t
unfolding root_from
one_round fuel es c t n p q = rw (p, q, root_from)

-- In a ledger, a row that supersedes another row and keeps its date has the same key in the fold: it
-- takes that row's place, through any chain of corrections.
pub fold_key-correction :
    (es : List Entry) (c t : Entry) (n : ℕ)
    → IsLedger es
    → c.supersedes ≡ some n
    → by_id es n ≡ some t
    → c.occurred_utc.utc ≡ t.occurred_utc.utc
    → fold_key es c ≡ fold_key es t
unfolding fold_key FoundRow
fold_key-correction es c t n h p q same_time = same_pair same_time root_id-correction
  where
    same_pair : {i j k l : ℕ} → i ≡ j → k ≡ l → ◌≡◌ {A = ℕ × ℕ} (i, k) (j, l)
    same_pair a b = cc

    st : All IsStored es
    st = All-IsStored_ledger es h

    row : IsRow n t
    row = subst (FoundRow n) q (by_id-IsRow es n st)

    root_id-correction : root_id es c ≡ root_id es t
    root_id-correction =
        sym (root_id_lem es c (suc (length es)) (omega arith))
        ∙ ap id_or_zero (
            one_round (length es) es c t n p q
            ∙ root_from-unseen (length es) es (n ∷ []) t st row.0 (omega (arith, row.1), tt))
        ∙ root_id_lem es t (length es) (omega arith)
