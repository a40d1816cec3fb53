-- ===== src/Ledger/Validate/Accepted.antt =====
-- What `validate` of ledger/validate.py has checked of the later entries when it accepts.
use uas_sustainment_workbenc.Base.{
  ℕ, ◌≡◌, ◌≢◌, refl, ap, eq_iff, String, str_eq, Bool, not, ◌||◌, arith, none, true, false, ◌⊎◌,
  inl, inr, Option, some, List, [], ◌∷◌, ◌++◌, All, if◌then◌else◌,
}
use uas_sustainment_workbenc.Base.Time.{DateTime, in_utc}
use uas_sustainment_workbenc.Ledger.Model.{Entry, is_retraction}
use uas_sustainment_workbenc.Ledger.Project.Order.{key_le, fold_key, liveness}
use uas_sustainment_workbenc.Ledger.Store.{Store, next_entry_id}
use uas_sustainment_workbenc.Ledger.Judged.{Judged, accepted, refused, cannot_read, raises, ◌>>=◌}
use uas_sustainment_workbenc.Ledger.Validate.Shape.{Rules}
use uas_sustainment_workbenc.Ledger.Validate.Checks.{same_id}
use uas_sustainment_workbenc.Ledger.Validate.Change.{
  is_passed_over, later_holds, later_hold, later_entries_still_hold,
}
use uas_sustainment_workbenc.Ledger.Validate.Write.{consequences, validate, earliest, or_self}
use uas_sustainment_workbenc.Ledger.Validate.Effects.{Gives, Gives-bind, Gives-accepted}
use uas_sustainment_workbenc.Ledger.Validate.Cut.{
  FoldsBefore, Corrects, brought_back, taken_away, IsCut, earliest_lem, correction-Corrects,
}

-- The entries that need not hold again: the candidate, another subject's, a retraction, and one that folds
-- before the cut or in its place.
abbrev pub IsExempt : List Entry → Entry → Entry → Entry → Type 0
IsExempt timeline candidate cut e =
    (e.id ≡ candidate.id)
    ⊎ ((e.subject ≢ candidate.subject)
        ⊎ ((is_retraction e.kind ≡ true) ⊎ FoldsBefore timeline e cut))

-- The entry is exempt, or its checks accept it on the records as they stood when it happened.
abbrev pub StillHolds : Rules → Store → List Entry → Entry → Entry → Entry → Type 0
StillHolds rules s timeline candidate cut e =
    IsExempt timeline candidate cut e ⊎ (later_holds rules s timeline candidate cut e ≡ accepted tt)

same_id_eq : (a b : Option ℕ) → same_id a b ≡ true → a ≡ b
same_id_eq none none h = refl
same_id_eq none (some n) h = cc
same_id_eq (some m) none h = cc
same_id_eq (some m) (some n) h = ap some (ground (arith, h))

one_of_four :
    (a b c d : Bool)
    → (a || b || c || d) ≡ true
    → (a ≡ true) ⊎ ((b ≡ true) ⊎ ((c ≡ true) ⊎ (d ≡ true)))
one_of_four true b c d h = inl refl
one_of_four false true c d h = inr (inl refl)
one_of_four false false true d h = inr (inr (inl refl))
one_of_four false false false d h = inr (inr (inr h))

not_same : (a b : String) → not (str_eq a b) ≡ true → a ≢ b
not_same a b h = λ p. cc (h, (eq_iff a b).1 p)

is_passed_over-IsExempt :
    (rules : Rules) (s : Store) (timeline : List Entry) (candidate cut e : Entry)
    → is_passed_over rules s timeline candidate cut e ≡ true
    → IsExempt timeline candidate cut e
is_passed_over-IsExempt rules s timeline candidate cut e h =
    elim (one_of_four (same_id e.id candidate.id) (not (str_eq e.subject candidate.subject))
      (is_retraction e.kind) (key_le (fold_key timeline e) (fold_key timeline cut)) h) [
        | inl a ↦ inl (same_id_eq e.id candidate.id a)
        | inr (inl b) ↦ inr (inl (not_same e.subject candidate.subject b))
        | inr (inr c) ↦ inr (inr c)
      ]

then-accepted :
    (j k : Judged (Unit {0})) → (j >>= λ u. k) ≡ accepted tt → (j ≡ accepted tt) × (k ≡ accepted tt)
unfolding ◌>>=◌
then-accepted (accepted tt) k h = (refl, h)
then-accepted (refused e) k h = cc
then-accepted (cannot_read u) k h = cc
then-accepted (raises w) k h = cc

guarded :
    (b : Bool) (j k : Judged (Unit {0}))
    → (if b then k else (j >>= λ u. k)) ≡ accepted tt
    → ((b ≡ true) ⊎ (j ≡ accepted tt)) × (k ≡ accepted tt)
guarded true j k h = (inl refl, h)
guarded false j k h = let (p, q) = then-accepted j k h in (inr p, q)

later_hold-StillHolds :
    (rules : Rules) (s : Store) (timeline : List Entry) (candidate cut : Entry) (es : List Entry)
    → later_hold rules s timeline candidate cut es ≡ accepted tt
    → All (StillHolds rules s timeline candidate cut) es
unfolding later_hold
later_hold-StillHolds rules s timeline candidate cut [] h = tt
later_hold-StillHolds rules s timeline candidate cut (e ∷ es) h =
    let (p, q) =
      guarded (is_passed_over rules s timeline candidate cut e)
        (later_holds rules s timeline candidate cut e)
        (later_hold rules s timeline candidate cut es) h in
    (exempt_or p, later_hold-StillHolds rules s timeline candidate cut es q)
  where
    exempt_or :
        (is_passed_over rules s timeline candidate cut e ≡ true)
          ⊎ (later_holds rules s timeline candidate cut e ≡ accepted tt)
        → StillHolds rules s timeline candidate cut e
    exempt_or (inl p) = inl (is_passed_over-IsExempt rules s timeline candidate cut e p)
    exempt_or (inr p) = inr p

-- What `validate` checked of the rows that are already there. The candidate is the entry it gives, as the
-- row it becomes.
pub record LaterHold (rules : Rules) (s : Store) (v : Entry) : Type 0 where
  pub candidate : Entry
  pub corrected : Option Entry
  pub cut : Entry
  pub same_id : candidate.id ≡ some (next_entry_id s)
  pub same_kind : candidate.kind ≡ v.kind
  pub same_subject : candidate.subject ≡ v.subject
  pub same_time : candidate.occurred_utc ≡ v.occurred_utc
  pub same_details : candidate.details ≡ v.details
  pub same_supersedes : candidate.supersedes ≡ v.supersedes
  pub names : Corrects s v corrected
  pub is_cut : IsCut s candidate corrected cut
  pub all_hold :
      All
        (StillHolds rules s (s.entries ++ candidate ∷ []) candidate cut)
        (liveness (s.entries ++ candidate ∷ [])).0

abbrev HoldsAfterCut : Rules → Store → Entry → Option Entry → Type 0
HoldsAfterCut rules s candidate corrected =
    (cut : Entry) × IsCut s candidate corrected cut
    × All (StillHolds rules s (s.entries ++ candidate ∷ []) candidate cut)
        (liveness (s.entries ++ candidate ∷ [])).0

consequences-HoldsAfterCut :
    (rules : Rules) (s : Store) (candidate : Entry) (c : Option Entry)
    → Gives
        (λ u. HoldsAfterCut rules s candidate c)
        (consequences rules s s.entries (s.entries ++ candidate ∷ []) candidate c)
unfolding consequences later_entries_still_hold
consequences-HoldsAfterCut rules s candidate c = Gives-bind _ _ _ λ u p. Gives-bind _ _ _ λ v q.
    record {
      at = λ w r. (
        cut,
        earliest_lem timeline (or_self c candidate)
            (brought_back s candidate ++ taken_away s candidate),
        later_hold-StillHolds rules s timeline candidate cut (liveness timeline).0 r,
      );
    }
  where
    timeline : List Entry
    timeline = s.entries ++ candidate ∷ []

    cut : Entry
    cut =
        earliest timeline (or_self c candidate) (brought_back s candidate ++ taken_away s candidate)

validate-LaterHold :
    (rules : Rules) (s : Store) (e : Entry) (now : DateTime)
    → Gives (LaterHold rules s) (validate rules s e now)
unfolding validate
validate-LaterHold rules s e now = Gives-bind _ _ _ λ shaped p. Gives-bind _ _ _ λ current p.
    Gives-bind _ _ _ λ u p. Gives-bind _ _ _ λ corrected named. Gives-bind _ _ _ λ v q.
      Gives-bind _ _ _ λ others q. Gives-bind _ _ _ λ then_ q. Gives-bind _ _ _ λ details q.
        Gives-bind _ _ _ λ w q.
          let candidate = record e {
            id = some (next_entry_id s);
            occurred_utc = in_utc e.occurred_utc;
            details = details;
          } in
          let (cut, is_cut, hold) =
            (consequences-HoldsAfterCut rules s candidate corrected).at w q in
          Gives-accepted _ _ (record {
            candidate = candidate;
            corrected = corrected;
            cut = cut;
            same_id = refl;
            same_kind = refl;
            same_subject = refl;
            same_time = refl;
            same_details = refl;
            same_supersedes = refl;
            names =
                (correction-Corrects s (record e { occurred_utc = in_utc e.occurred_utc })
                    current).at
                  corrected named;
            is_cut = is_cut;
            all_hold = hold;
          })

-- When `validate` accepts an entry, whatever the rules, the store and the time: every live entry of the
-- ledger with the candidate in it is exempt (the candidate, another subject's, a retraction, or not
-- after the cut in fold order), or its own checks accept it on the records as they stood when it happened. The
-- candidate is the accepted entry with the next id. The cut is the earliest in fold order of the row that
-- the entry names as superseded (the candidate itself, where it names none) and of the entries that the
-- write brings back or ends.
pub accepted-LaterHold :
    (rules : Rules) (s : Store) (e v : Entry) (now : DateTime)
    → validate rules s e now ≡ accepted v
    → LaterHold rules s v
accepted-LaterHold rules s e v now h = (validate-LaterHold rules s e now).at v h
