-- ===== src/Ledger/Validate/Cut.antt =====
-- The cut of a write: what it corrects, and the earliest of the entries that it moves.
use uas_sustainment_workbenc.Base.{
  ℕ, ◌≡◌, refl, eq_iff, Bool, true, false, not, Option, none, some, List, [], ◌∷◌, ◌++◌, All, arith,
  if◌then◌else◌,
}
use mathlib.Core.List.{Mem, mem-cons, Mem-prop}
use mathlib.Core.Logic.Or
use uas_sustainment_workbenc.Ledger.Model.{Entry, Projection}
use uas_sustainment_workbenc.Ledger.Project.Order.{key_le, key_lt, fold_key}
use uas_sustainment_workbenc.Ledger.Store.{Store, entry}
use uas_sustainment_workbenc.Ledger.Judged.{
  Sentence, accepted, refuse, refuse_if, no_such_entry, found_or,
}
use uas_sustainment_workbenc.Ledger.Validate.Checks.{correction, corrects}
use uas_sustainment_workbenc.Ledger.Validate.Change.{change}
use uas_sustainment_workbenc.Ledger.Validate.Write.{earliest, or_self}
use uas_sustainment_workbenc.Ledger.Validate.Effects.{Gives, Gives-bind, Gives-accepted}

-- What the accepted entry supersedes: nothing, or the row with the id that it names, of the same subject.
abbrev pub Corrects : Store → Entry → Option Entry → Type 0
Corrects s v none = v.supersedes ≡ none
Corrects s v (some c) =
    (n : ℕ) × (v.supersedes ≡ some n) × (entry s n ≡ some c) × (c.subject ≡ v.subject)

-- The live entries after a write that were ended before it, and those it ends; neither are retractions.
abbrev pub brought_back : Store → Entry → List Entry
brought_back s candidate = (change s.entries (s.entries ++ candidate ∷ []) candidate).revived

abbrev pub taken_away : Store → Entry → List Entry
taken_away s candidate = (change s.entries (s.entries ++ candidate ∷ []) candidate).ended

-- Whether one entry folds before another or in its place.
abbrev pub FoldsBefore : List Entry → Entry → Entry → Type 0
FoldsBefore timeline x y = key_le (fold_key timeline x) (fold_key timeline y) ≡ true

-- The cut of a write: one of what it corrects (itself, where it corrects nothing), brings back or takes away,
-- and none of those folds before it.
abbrev pub IsCut : Store → Entry → Option Entry → Entry → Type 0
IsCut s candidate corrected cut =
    let moved =
      or_self corrected candidate ∷ (brought_back s candidate ++ taken_away s candidate) in
    Mem cut moved × All (FoldsBefore (s.entries ++ candidate ∷ []) cut) moved

key_le_refl : (a : ℕ × ℕ) → key_le a a ≡ true
key_le_refl (a, b) = ground arith

key_le_of_lt : (a b c : ℕ × ℕ) → key_le a b ≡ true → key_lt b c ≡ true → key_le a c ≡ true
key_le_of_lt (a, b) (c, d) (e, f) h k = ground arith

key_le_of_not_lt : (a b c : ℕ × ℕ) → key_le a b ≡ true → key_lt c b ≡ false → key_le a c ≡ true
key_le_of_not_lt (a, b) (c, d) (e, f) h k = ground arith

pub earliest_lem :
    (tl : List Entry) (e : Entry) (es : List Entry)
    → Mem (earliest tl e es) (e ∷ es) × All (FoldsBefore tl (earliest tl e es)) (e ∷ es)
earliest_lem tl e [] = (mem-cons.1 (Or.inl refl), (key_le_refl (fold_key tl e), tt))
earliest_lem tl e (x ∷ xs) =
    first_of (λ e'. earliest_lem tl e' xs) (key_lt (fold_key tl x) (fold_key tl e)) refl
  where
    first_of :
        ((e' : Entry)
          → Mem (earliest tl e' xs) (e' ∷ xs) × All (FoldsBefore tl (earliest tl e' xs)) (e' ∷ xs))
        → (b : Bool) → key_lt (fold_key tl x) (fold_key tl e) ≡ b
        → Mem (earliest tl (if b then x else e) xs) (e ∷ x ∷ xs)
          × All (FoldsBefore tl (earliest tl (if b then x else e) xs)) (e ∷ x ∷ xs)
    first_of later true lt =
        let (m, h) = later x in
        (mem-cons.1 (Or.inr m), (key_le_of_lt _ (fold_key tl x) (fold_key tl e) h.0 lt, h))
    first_of later false not_lt =
        let (m, h) = later e in
        (
          Or.elim Mem-prop (mem-cons.0 m) (λ q. mem-cons.1 (Or.inl q))
              (λ q. mem-cons.1 (Or.inr (mem-cons.1 (Or.inr q)))),
          (h.0, (key_le_of_not_lt _ (fold_key tl e) (fold_key tl x) h.0 not_lt, h.1)),
        )

refuse_if-accepted :
    (b : Bool) (n : ℕ) (x : Sentence) (u : Unit {0}) → refuse_if (not b) n x ≡ accepted u → b ≡ true
unfolding refuse_if
refuse_if-accepted true n x u h = refl
refuse_if-accepted false n x u h = cc

corrects-Corrects :
    (s : Store) (e target : Entry) (p : Projection) (n : ℕ)
    → e.supersedes ≡ some n
    → entry s n ≡ some target
    → Gives (Corrects s e) (corrects e target p)
unfolding corrects
corrects-Corrects s e target p n h k = Gives-bind _ _ _ λ u q. Gives-bind _ _ _ λ v r.
    Gives-bind _ _ _ λ w r. Gives-bind _ _ _ λ x r.
      Gives-accepted _ _
        (n, h, k, (eq_iff target.subject e.subject).0 (refuse_if-accepted _ 409 _ u q))

pub correction-Corrects :
    (s : Store) (e : Entry) (p : Projection) → Gives (Corrects s e) (correction s e p)
unfolding correction found_or
correction-Corrects s e p = of_named e.supersedes refl
  where
    of_target :
        (n : ℕ) (o : Option Entry)
        → e.supersedes ≡ some n
        → entry s n ≡ o
        → Gives
            (Corrects s e)
            (found_or o (refuse 404 (no_such_entry n)) λ target. corrects e target p)
    of_target n none h k = record { at = λ c q. cc }
    of_target n (some target) h k = corrects-Corrects s e target p n h k

    of_named :
        (o : Option ℕ)
        → e.supersedes ≡ o
        → Gives (Corrects s e) (
            found_or o (accepted none) λ n.
              found_or (entry s n) (refuse 404 (no_such_entry n)) λ target. corrects e target p)
    of_named none h = Gives-accepted _ _ h
    of_named (some n) h = of_target n (entry s n) h refl
