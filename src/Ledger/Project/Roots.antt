-- ===== src/Ledger/Project/Roots.antt =====
-- The `while` of `fold_key` ends: as many rounds as there are entries reach the root.
use uas_sustainment_workbenc.Base.{
  ℕ, zero, suc, ◌+◌, ◌<◌, ◌≤◌, ◌==◌, ==_iff, ◌≡◌, refl, sym, ap, ◌∙◌, Bool, true, false, not,
  Bool-cases, Option, none, some, List, [], ◌∷◌, inl, inr, any, length, arith, if◌then◌else◌,
}
use mathlib.Core.Path.{subst}
use uas_sustainment_workbenc.Ledger.Model.{Entry}
use uas_sustainment_workbenc.Ledger.Project.Order.{
  has_id, by_id, contains, root_from, root_id, id_or_zero,
}

abbrev is_fresh : List ℕ → Option ℕ → Bool
is_fresh seen none = false
is_fresh seen (some n) = not (contains n seen)

-- The number of entries whose id is not among those seen.
fresh : List ℕ → List Entry → ℕ
fresh seen [] = 0
fresh seen (e ∷ es) = let rest = fresh seen es in if is_fresh seen e.id then suc rest else rest

fresh_bound : (seen : List ℕ) (es : List Entry) → fresh seen es ≤ length es
unfolding fresh
fresh_bound seen [] = omega arith
fresh_bound seen (e ∷ es) = ground (arith, fresh_bound seen es)

fresh_mono : (n : ℕ) (seen : List ℕ) (es : List Entry) → fresh (n ∷ seen) es ≤ fresh seen es
unfolding fresh
fresh_mono n seen [] = omega arith
fresh_mono n seen (e ∷ es) = ground (arith, fresh_mono n seen es)

-- An id that an entry has and that was not seen uses one entry up.
fresh_less :
    (n : ℕ) (seen : List ℕ) (es : List Entry)
    → any (has_id n) es ≡ true
    → contains n seen ≡ false
    → fresh (n ∷ seen) es < fresh seen es
unfolding fresh
fresh_less n seen [] h k = cc
fresh_less n seen (e ∷ es) h k = elim (Bool-cases (has_id n e)) [
  | inl here ↦ one_less e.id here
  | inr not_here ↦ ground (arith, h, not_here, fresh_less n seen es (rest_has not_here) k)
]
  where
    rest_has : has_id n e ≡ false → any (has_id n) es ≡ true
    rest_has q = ground (arith, h, q)

    one_less :
        (o : Option ℕ)
        → (elim o [ none ↦ false | some m ↦ m == n ]) ≡ true
        → (if is_fresh (n ∷ seen) o then suc (fresh (n ∷ seen) es) else fresh (n ∷ seen) es)
          < (if is_fresh seen o then suc (fresh seen es) else fresh seen es)
    one_less none q = cc
    one_less (some m) q =
        subst
          (λ i.
            (if is_fresh (n ∷ seen) (some i)
              then suc (fresh (n ∷ seen) es)
              else fresh (n ∷ seen) es)
            < (if is_fresh seen (some i) then suc (fresh seen es) else fresh seen es))
          (sym ((==_iff m n).0 q)) (ground (arith, k, fresh_mono n seen es))

by_id-has : (es : List Entry) (n : ℕ) → any (has_id n) es ≡ false → by_id es n ≡ none
unfolding by_id
by_id-has [] n h = refl
by_id-has (e ∷ es) n h = ground (arith, h, by_id-has es n)

pub has-by_id :
    (es : List Entry) (n : ℕ) (x : Entry) → by_id es n ≡ some x → any (has_id n) es ≡ true
has-by_id es n x h = elim (Bool-cases (any (has_id n) es)) [
  | inl yes_has ↦ yes_has
  | inr no_has ↦ absurd (some_not_none (sym h ∙ by_id-has es n no_has))
]
  where
    some_not_none : some x ≡ none → ⊥
    some_not_none p = cc

-- One round of the loop, which goes on with `f`.
module _ (es : List Entry) (seen : List ℕ) (e : Entry) where
  abbrev pub found : (ℕ → Entry → Entry) → ℕ → Option Entry → Entry
  found f n none = e
  found f n (some next) = if contains n seen then e else f n next

  abbrev pub round : (ℕ → Entry → Entry) → Option ℕ → Entry
  round f none = e
  round f (some n) = found f n (by_id es n)

  -- Two ways to go on that agree wherever the loop goes on.
  same_round :
      (f g : ℕ → Entry → Entry) (o : Option ℕ)
      → ((n : ℕ) (next : Entry)
          → by_id es n ≡ some next
          → contains n seen ≡ false
          → f n next ≡ g n next)
      → round f o ≡ round g o
  same_round f g none h = refl
  same_round f g (some n) h = same_found (by_id es n) (h n)
    where
      same_found :
          (o : Option Entry)
          → ((next : Entry) → o ≡ some next → contains n seen ≡ false → f n next ≡ g n next)
          → found f n o ≡ found g n o
      same_found none k = refl
      same_found (some next) k = elim (Bool-cases (contains n seen)) [
        | inl yes_seen ↦ rw yes_seen refl
        | inr not_seen ↦ rw not_seen (k next refl not_seen)
      ]

  round_ends : (o : Option ℕ) → round (λ n next. e) o ≡ e
  round_ends none = refl
  round_ends (some n) = ends_found (by_id es n)
    where
      ends_found : (o : Option Entry) → found (λ m next. e) n o ≡ e
      ends_found none = refl
      ends_found (some next) = ground arith

pub root_from-suc :
    (fuel : ℕ) (es : List Entry) (seen : List ℕ) (e : Entry)
    → root_from (suc fuel) es seen e
      ≡ round es seen e (λ n next. root_from fuel es (n ∷ seen) next) e.supersedes
unfolding root_from
root_from-suc fuel es seen e = ground arith

-- Fuel for the entries not seen is enough: with more the root is the same.
root_from-enough :
    (fuel enough : ℕ) (es : List Entry) (seen : List ℕ) (e : Entry)
    → fresh seen es ≤ enough
    → enough ≤ fuel
    → root_from fuel es seen e ≡ root_from enough es seen e
unfolding root_from
root_from-enough zero zero es seen e h le = refl
root_from-enough zero (suc enough) es seen e h le = absurd (omega (arith, le))
root_from-enough (suc fuel) zero es seen e h le =
    root_from-suc fuel es seen e
    ∙ same_round es seen e _ (λ n next. e) e.supersedes
        (λ n next found_it unseen.
          absurd (omega (arith, h, fresh_less n seen es (has-by_id es n next found_it) unseen)))
    ∙ round_ends es seen e e.supersedes
root_from-enough (suc fuel) (suc enough) es seen e h le =
    root_from-suc fuel es seen e
    ∙ same_round es seen e _ _ e.supersedes (λ n next found_it unseen.
      let less = fresh_less n seen es (has-by_id es n next found_it) unseen in
      root_from-enough fuel enough es (n ∷ seen) next (omega (arith, h, less)) (omega (arith, le)))
    ∙ sym (root_from-suc enough es seen e)

-- Whatever the entries, in a ledger or not, and whichever the entry: at least as much fuel as there are
-- entries gives the root that `fold_key` uses.
pub root_id_lem :
    (es : List Entry) (e : Entry) (fuel : ℕ)
    → length es ≤ fuel
    → id_or_zero (root_from fuel es [] e) ≡ root_id es e
unfolding root_id
root_id_lem es e fuel le =
    let bound = fresh_bound [] es in
    ap id_or_zero (
      root_from-enough fuel (length es) es [] e bound le
      ∙ sym (root_from-enough (length es + 1) (length es) es [] e bound (omega arith)))
