-- ===== src/Ledger/Validate/Effects.antt =====
-- What `append` writes: nothing when the entry is refused, one row with the next id when it is accepted,
-- and a store whose rows stay a ledger.
use uas_sustainment_workbenc.Base.{
  Bool-cases, ℕ, ◌<◌, ◌≤◌, ◌≡◌, ◌≢◌, refl, sym, true, false, inl, inr, Option, none, some, List, [],
  ◌∷◌, ◌++◌, any, first, All, All-append, ◌∙◌, arith,
}
use mathlib.Core.Path.{subst}
use uas_sustainment_workbenc.Base.Time.{DateTime, in_utc}
use uas_sustainment_workbenc.Ledger.Model.{Entry, Projection}
use uas_sustainment_workbenc.Ledger.Project.Order.{id_or_zero, has_id, liveness}
use uas_sustainment_workbenc.Ledger.Project.Liveness.{IsStored, IsLedger, All-IsStored_ledger}
use uas_sustainment_workbenc.Ledger.Project.Liveness.Exact.{LiveIffUnended, liveness-exact}
use uas_sustainment_workbenc.Ledger.Store.{Store, entry, max_id, next_entry_id, append_entry}
use uas_sustainment_workbenc.Ledger.Judged.{
  Judged, accepted, refused, cannot_read, raises, refuse, found_or, ◌>>=◌, no_such_entry,
}
use uas_sustainment_workbenc.Ledger.Validate.Shape.{Rules}
use uas_sustainment_workbenc.Ledger.Validate.Checks.{correction, corrects}
use uas_sustainment_workbenc.Ledger.Validate.Write.{validate, committed, append}

-- What holds of the value of a judgement that accepts.
pub record Gives {ℓ κ} {A : Type ℓ} (P : A → Type κ) (j : Judged A) : Type (ℓ ⊔ κ) where
  pub at : (a : A) → j ≡ accepted a → P a

pub Gives-bind {ℓ κ μ} :
    {A : Type ℓ} {B : Type κ} (P : B → Type μ) (m : Judged A) (f : A → Judged B)
    → ((a : A) → m ≡ accepted a → Gives P (f a))
    → Gives P (m >>= f)
unfolding ◌>>=◌
Gives-bind P (accepted a) f h = h a refl
Gives-bind P (refused x) f h = record { at = λ b p. cc }
Gives-bind P (cannot_read u) f h = record { at = λ b p. cc }
Gives-bind P (raises w) f h = record { at = λ b p. cc }

accepted-inj {ℓ} : {A : Type ℓ} {a b : A} → accepted a ≡ accepted b → a ≡ b
accepted-inj p = cc

pub Gives-accepted {ℓ κ} : {A : Type ℓ} (P : A → Type κ) (a : A) → P a → Gives P (accepted a)
Gives-accepted P a h = record { at = λ b p. subst P (accepted-inj p) h }

first-none : (n : ℕ) (es : List Entry) → any (has_id n) es ≡ false → first (has_id n) es ≡ none
first-none n [] h = refl
first-none n (e ∷ es) h = ground (arith, h, first-none n es)

-- A correction that is accepted names a row of the store.
names_row :
    (s : Store) (e : Entry) (p : Projection) (c : Option Entry)
    → correction s e p ≡ accepted c
    → (n : ℕ) → e.supersedes ≡ some n
    → any (has_id n) s.entries ≡ true
unfolding correction entry found_or
names_row s e p c h n q = elim (Bool-cases (any (has_id n) s.entries)) [
  | inl has ↦ has
  | inr has_not ↦ absurd (
      refuse_not (
        subst (λ o. found_or o (refuse 404 (no_such_entry n)) (λ t. corrects e t p) ≡ accepted c)
          (first-none n s.entries has_not)
          (subst (λ o. found_or o (accepted none) (continue) ≡ accepted c) q h)))
]
  where
    continue : ℕ → Judged (Option Entry)
    continue m = found_or (entry s m) (refuse 404 (no_such_entry m)) λ t. corrects e t p

    refuse_not : refuse 404 (no_such_entry n) ≡ accepted c → ⊥
    refuse_not r = cc

-- What `validate` gives supersedes what was sent, and that is a row of the store.
abbrev pub ValidFor : Store → Entry → Entry → Type 0
ValidFor s e v =
    v.supersedes ≡ e.supersedes
    × ((n : ℕ) → e.supersedes ≡ some n → any (has_id n) s.entries ≡ true)

validate-ValidFor :
    (rules : Rules) (s : Store) (e : Entry) (now : DateTime)
    → Gives (ValidFor s e) (validate rules s e now)
unfolding validate
validate-ValidFor rules s e now = Gives-bind _ _ _ λ shaped p. Gives-bind _ _ _ λ current p.
    Gives-bind _ _ _ λ u p. Gives-bind _ _ _ λ corrected p. Gives-bind _ _ _ λ v q.
      Gives-bind _ _ _ λ others q. Gives-bind _ _ _ λ then_ q. Gives-bind _ _ _ λ details q.
        Gives-bind _ _ _ λ w q. Gives-accepted _ _ (
          refl,
          names_row s (record e { occurred_utc = in_utc e.occurred_utc }) current corrected p,
        )

-- The ids of the rows, and the next one after them all.
All-below : (es : List Entry) → All IsStored es → All (λ x. id_or_zero x ≤ max_id es) es
All-below [] h = tt
All-below (e ∷ es) h = (ground arith, weaken es (All-below es h.1))
  where
    weaken :
        (xs : List Entry)
        → All (λ x. id_or_zero x ≤ max_id es) xs
        → All (λ x. id_or_zero x ≤ max_id (e ∷ es)) xs
    weaken [] k = tt
    weaken (x ∷ xs) k = (ground (arith, k.0), weaken xs k.1)

has_id-below :
    (es : List Entry) (n : ℕ) → All IsStored es → any (has_id n) es ≡ true → n ≤ max_id es
has_id-below [] n st h = cc
has_id-below (e ∷ es) n st h = elim (Bool-cases (any (has_id n) es)) [
  | inl later ↦ ground (arith, has_id-below es n st.1 later)
  | inr not_later ↦ ground (arith, st.0.present, h, not_later)
]

IsLedger-append :
    (es : List Entry) (x : Entry)
    → IsLedger es
    → IsStored x
    → All (λ y. id_or_zero y < id_or_zero x) es
    → IsLedger (es ++ x ∷ [])
IsLedger-append [] x h s lt = (s, tt, tt)
IsLedger-append (e ∷ es) x h s lt = (
  h.0,
  All-append (λ y. id_or_zero y ≢ id_or_zero e) es (x ∷ []) h.1 (λ q. ground (arith, lt.0, q), tt),
  IsLedger-append es x h.2 s lt.1,
)

All-map {ℓ κ μ} :
    {A : Type ℓ} (P : A → Type κ) (Q : A → Type μ) (xs : List A)
    → ((a : A) → P a → Q a)
    → All P xs
    → All Q xs
All-map P Q [] f h = tt
All-map P Q (x ∷ xs) f h = (f x h.0, All-map P Q xs f h.1)

append_entry-IsLedger :
    (s : Store) (e v : Entry)
    → IsLedger s.entries
    → ValidFor s e v
    → IsLedger (append_entry s v).0.entries
unfolding append_entry next_entry_id
append_entry-IsLedger s e v h k =
    IsLedger-append s.entries (append_entry s v).1 h
      (record {
        present = refl;
        older = λ m q. omega (
          arith,
          has_id-below s.entries m (All-IsStored_ledger s.entries h) (k.1 m (sym k.0 ∙ q)),
        );
      })
      (All-map _ _ s.entries (λ x q. omega (arith, q))
        (All-below s.entries (All-IsStored_ledger s.entries h)))

-- What `append` leaves: the store as it was, or one more row, of the id after all of the store's.
pub data Appended (before : Store) : Store × Judged Entry → Type 0 where
  nothing_written :
      (j : Judged Entry) → ((e : Entry) → j ≢ accepted e) → Appended before (before, j)
  one_row :
      (after : Store) (stored : Entry)
      → after.entries ≡ before.entries ++ stored ∷ []
      → after.aircraft ≡ before.aircraft
      → after.flights ≡ before.flights
      → stored.id ≡ some (next_entry_id before)
      → All (λ x. id_or_zero x < next_entry_id before) before.entries
      → Appended before (after, accepted stored)

committed-Appended :
    (s : Store) → IsLedger s.entries → (j : Judged Entry) → Appended s (committed s j)
unfolding committed append_entry next_entry_id
committed-Appended s h (accepted v) = one_row _ _ refl refl refl refl (
    All-map _ _ s.entries (λ x q. omega (arith, q))
      (All-below s.entries (All-IsStored_ledger s.entries h)))
committed-Appended s h (refused x) = nothing_written _ λ v p. cc
committed-Appended s h (cannot_read u) = nothing_written _ λ v p. cc
committed-Appended s h (raises w) = nothing_written _ λ v p. cc

committed-IsLedger :
    (s : Store)
    → IsLedger s.entries
    → (e : Entry) (j : Judged Entry) → Gives (ValidFor s e) j
    → IsLedger (committed s j).0.entries
unfolding committed
committed-IsLedger s h e (accepted v) g = append_entry-IsLedger s e v h (g.at v refl)
committed-IsLedger s h e (refused x) g = h
committed-IsLedger s h e (cannot_read u) g = h
committed-IsLedger s h e (raises w) g = h

-- Whatever the rules, the store, the entry and the time, when the rows of the store are a ledger `append`
-- either does not accept the entry and gives the store it was given, or accepts one and adds exactly that
-- row at the end: its id is the next one and greater than that of every row, and the aircraft and flights
-- are as they were.
pub append-Appended :
    (rules : Rules) (s : Store) (e : Entry) (now : DateTime)
    → IsLedger s.entries
    → Appended s (append rules s e now)
unfolding append
append-Appended rules s e now h = committed-Appended s h (validate rules s e now)

-- When the rows of the store are a ledger (each has an id, no two the same, and supersedes only an older
-- row), so are its rows after `append`, whether the entry is accepted or not.
pub append-IsLedger :
    (rules : Rules) (s : Store) (e : Entry) (now : DateTime)
    → IsLedger s.entries
    → IsLedger (append rules s e now).0.entries
unfolding append
append-IsLedger rules s e now h =
    committed-IsLedger s h e (validate rules s e now) (validate-ValidFor rules s e now)

-- A run of writes, each judged against the store the ones before it left.
unfoldable pub append_all : Rules → Store → List (Entry × DateTime) → Store
unfolding append
append_all rules s [] = s
append_all rules s ((e, now) ∷ es) = append_all rules (append rules s e now).0 es

pub append_all-IsLedger :
    (rules : Rules) (s : Store) (es : List (Entry × DateTime))
    → IsLedger s.entries
    → IsLedger (append_all rules s es).entries
unfolding append_all
append_all-IsLedger rules s [] h = h
append_all-IsLedger rules s ((e, now) ∷ es) h =
    append_all-IsLedger rules (append rules s e now).0 es (append-IsLedger rules s e now h)

-- Whatever is written, from a store without rows, whichever of the entries are refused: an entry of the
-- ledger is live exactly when no live entry supersedes it.
pub append_all-exact :
    (rules : Rules) (s : Store) (es : List (Entry × DateTime))
    → s.entries ≡ []
    → All
        (LiveIffUnended (liveness (append_all rules s es).entries).0)
        (append_all rules s es).entries
append_all-exact rules s es p =
    liveness-exact (append_all rules s es).entries
      (append_all-IsLedger rules s es (subst IsLedger (sym p) tt))
