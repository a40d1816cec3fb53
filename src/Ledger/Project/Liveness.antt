-- ===== src/Ledger/Project/Liveness.antt =====
-- Which entries are live, and that the live ones come in fold order.
pub mod Exact
use uas_sustainment_workbenc.Base.{
  ℕ, ◌<◌, ◌==◌, ltb, leb, ◌≡◌, ◌≢◌, refl, sym, ◌∙◌, ap, Bool, true, false, not, ◌||◌, ◌&&◌, ◌⊎◌,
  inl, inr, Option, none, some, List, [], ◌∷◌, arith, All, any, Bool-cases, if◌then◌else◌,
}
use mathlib.Core.Path.{subst}
use uas_sustainment_workbenc.Base.Sort.{
  sort_by, insert, any-sort_by, All-insert, IsSorted, IsOrder, sort_by-IsSorted,
}
use uas_sustainment_workbenc.Ledger.Model.{Entry}
use uas_sustainment_workbenc.Ledger.Project.Order.{
  id_or_zero, has_id, get_id, put_id, is_dead, note_superseded, live_from, liveness, newest_first,
  fold_le, fold_key,
}

-- A row of the store: it has an id, and what it supersedes was written before it.
pub record IsStored (e : Entry) : Type 0 where
  pub present : e.id ≡ some (id_or_zero e)
  pub older : (m : ℕ) → e.supersedes ≡ some m → m < id_or_zero e

-- Every entry is a row of the store and no two have the same id.
abbrev pub IsLedger : List Entry → Type 0
IsLedger [] = Unit
IsLedger (e ∷ es) = IsStored e × All (λ x. id_or_zero x ≢ id_or_zero e) es × IsLedger es

abbrev pub IsDescending : List Entry → Type 0
IsDescending [] = Unit
IsDescending (e ∷ es) = IsStored e × All (λ x. id_or_zero x < id_or_zero e) es × IsDescending es

-- The entry supersedes the entry of that id.
abbrev pub ends : ℕ → Entry → Bool
ends n x = elim x.supersedes [ none ↦ false | some m ↦ m == n ]

abbrev pub noted : List (ℕ × ℕ) → ℕ → Bool
noted by n = elim (get_id by n) [ none ↦ false | some _ ↦ true ]

noted-put_id : (by : List (ℕ × ℕ)) (k v n : ℕ) → noted (put_id by k v) n ≡ (noted by n || (k == n))
noted-put_id [] k v n = ground arith
noted-put_id ((j, w) ∷ by) k v n = ground (arith, noted-put_id by k v n)

pub noted-note_superseded :
    (by : List (ℕ × ℕ)) (e : Entry) (n : ℕ)
    → IsStored e
    → noted (note_superseded by e) n ≡ (noted by n || ends n e)
noted-note_superseded by e n s = go e.supersedes e.id s.present
  where
    go :
        (sup id : Option ℕ)
        → id ≡ some (id_or_zero e)
        → noted (elim sup [ none ↦ by | some k ↦ elim id [ none ↦ by | some m ↦ put_id by k m ] ]) n
          ≡ (noted by n || elim sup [ none ↦ false | some m ↦ m == n ])
    go none id p = ground arith
    go (some k) none p = cc
    go (some k) (some m) p = noted-put_id by k m n

pub is_dead-noted :
    (by : List (ℕ × ℕ)) (e : Entry) → IsStored e → is_dead by e ≡ noted by (id_or_zero e)
is_dead-noted by e s =
    subst
      (λ o.
        (elim o [ none ↦ false | some n ↦ elim (get_id by n) [ none ↦ false | some _ ↦ true ] ])
        ≡ noted by (id_or_zero e))
      (sym s.present) refl

pub live_from-dead :
    (e : Entry) (es : List Entry) (by : List (ℕ × ℕ))
    → is_dead by e ≡ true
    → live_from (e ∷ es) by ≡ live_from es by
unfolding live_from
live_from-dead e es by h = rw (h, live_from)

pub live_from-live :
    (e : Entry) (es : List Entry) (by : List (ℕ × ℕ))
    → is_dead by e ≡ false
    → live_from (e ∷ es) by
      ≡ (e ∷ (live_from es (note_superseded by e)).0, (live_from es (note_superseded by e)).1)
unfolding live_from
live_from-live e es by h = rw (h, live_from)

-- The ids noted as superseded are those that came in, and those a live entry supersedes.
pub noted-live_from :
    (es : List Entry) (by : List (ℕ × ℕ)) (n : ℕ)
    → IsDescending es
    → noted (live_from es by).1 n ≡ (noted by n || any (ends n) (live_from es by).0)
unfolding live_from
noted-live_from [] by n d = ground arith
noted-live_from (e ∷ es) by n d = elim (Bool-cases (is_dead by e)) [
  | inl dead ↦
      subst (λ r. noted r.1 n ≡ (noted by n || any (ends n) r.0))
        (sym (live_from-dead e es by dead)) (noted-live_from es by n d.2)
  | inr alive ↦
      subst (λ r. noted r.1 n ≡ (noted by n || any (ends n) r.0))
        (sym (live_from-live e es by alive))
        (ground (
          arith,
          noted-live_from es (note_superseded by e) n d.2,
          noted-note_superseded by e n d.0,
        ))
]

-- What holds of every entry holds of the live ones.
pub All-live_from :
    (P : Entry → Type 0) (es : List Entry) (by : List (ℕ × ℕ))
    → All P es
    → All P (live_from es by).0
unfolding live_from
All-live_from P [] by h = tt
All-live_from P (e ∷ es) by h = elim (Bool-cases (is_dead by e)) [
  | inl dead ↦
      subst (λ r. All P r.0) (sym (live_from-dead e es by dead)) (All-live_from P es by h.1)
  | inr alive ↦
      subst (λ r. All P r.0) (sym (live_from-live e es by alive))
        (h.0, All-live_from P es (note_superseded by e) h.1)
]

pub none_ends :
    (n : ℕ) (es : List Entry)
    → All IsStored es
    → All (λ x. id_or_zero x < n) es
    → any (ends n) es ≡ false
none_ends n [] s h = refl
none_ends n (e ∷ es) s h = elim (Bool-cases (ends n e)) [
  | inl yes_ends ↦ absurd (later e.supersedes s.0.older yes_ends)
  | inr no_ends ↦ rw no_ends (none_ends n es s.1 h.1)
]
  where
    later :
        (sup : Option ℕ)
        → ((m : ℕ) → sup ≡ some m → m < id_or_zero e)
        → (elim sup [ none ↦ false | some m ↦ m == n ]) ≡ true
        → ⊥
    later none o q = cc
    later (some m) o q = ground (arith, o m refl, h.0)

pub none_has :
    (n : ℕ) (es : List Entry)
    → All IsStored es
    → All (λ x. id_or_zero x < n) es
    → any (has_id n) es ≡ false
none_has n [] s h = refl
none_has n (e ∷ es) s h = ground (arith, s.0.present, h.0, none_has n es s.1 h.1)

pub All-IsStored : (es : List Entry) → IsDescending es → All IsStored es
All-IsStored [] d = tt
All-IsStored (e ∷ es) d = (d.0, All-IsStored es d.2)

pub ends_self : (e : Entry) → IsStored e → ends (id_or_zero e) e ≡ false
ends_self e s = later e.supersedes s.older
  where
    later :
        (sup : Option ℕ)
        → ((m : ℕ) → sup ≡ some m → m < id_or_zero e)
        → (elim sup [ none ↦ false | some m ↦ m == id_or_zero e ]) ≡ false
    later none o = refl
    later (some m) o = ground (arith, o m refl)

pub All-IsStored_ledger : (es : List Entry) → IsLedger es → All IsStored es
All-IsStored_ledger [] h = tt
All-IsStored_ledger (e ∷ es) h = (h.0, All-IsStored_ledger es h.2)
