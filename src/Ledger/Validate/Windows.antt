-- ===== src/Ledger/Validate/Windows.antt =====
-- An accepted move of a component and its effect in the fold: a component is on one aircraft at most.
use uas_sustainment_workbenc.Base.{
  ℕ, suc, ap, ◌∙◌, ◌≤◌, ◌≡◌, refl, String, str_eq, true, Bool-cases, Option, none, some, List, [],
  ◌∷◌, ◌++◌, first, inl, inr, arith, if◌then◌else◌,
}
use mathlib.Core.Path.{subst}
use uas_sustainment_workbenc.Base.Dict.{Dict}
use uas_sustainment_workbenc.Base.Time.{DateTime}
use uas_sustainment_workbenc.Life.Model.{Installation}
use uas_sustainment_workbenc.Ledger.Model.{component_install, component_remove, Entry, Value}
use uas_sustainment_workbenc.Ledger.Store.{Store}
use uas_sustainment_workbenc.Ledger.Project.Fold.{ComponentRecords, close_window, move}
use uas_sustainment_workbenc.Ledger.Project.Records.{component_of}
use uas_sustainment_workbenc.Ledger.Judged.{
  Judged, accepted, refuse, found_or, ◌>>=◌, installed_on, not_installed, installed_elsewhere,
}
use uas_sustainment_workbenc.Ledger.Validate.Shape.{Rules}
use uas_sustainment_workbenc.Ledger.Validate.Transitions.{install, remove, is_open}

-- The windows no removal has closed.
abbrev pub open_windows : List Installation → ℕ
open_windows [] = 0
open_windows (i ∷ is) = let rest = open_windows is in if is_open i then suc rest else rest

some-inj : {i j : Installation} → some i ≡ some j → i ≡ j
some-inj p = cc

none_open : (is : List Installation) → first is_open is ≡ none → open_windows is ≡ 0
none_open [] h = refl
none_open (i ∷ is) h = ground (arith, h, none_open is)

open_windows-append :
    (is : List Installation) (i : Installation)
    → is_open i ≡ true
    → open_windows (is ++ i ∷ []) ≡ suc (open_windows is)
open_windows-append [] i h = ground (arith, h)
open_windows-append (j ∷ is) i h = ground (arith, open_windows-append is i h)

-- What is open on the aircraft is closed: one window fewer is open.
open_windows-close :
    (is : List Installation) (i : Installation) (key : String) (t : DateTime)
    → first is_open is ≡ some i
    → str_eq i.aircraft_key key ≡ true
    → suc (open_windows (close_window is key t)) ≡ open_windows is
open_windows-close [] i key t h k = cc
open_windows-close (j ∷ is) i key t h k =
    at_head j.to_utc j.from_utc j.aircraft_key h (λ g. open_windows-close is i key t g k)
  where
    window : Option DateTime → DateTime → String → Installation
    window o from key' = record { aircraft_key = key'; from_utc = from; to_utc = o }

    same_key : (m : Installation) → some m ≡ some i → str_eq m.aircraft_key key ≡ true
    same_key m p = rw (some-inj p) k

    at_head :
        (o : Option DateTime) (from : DateTime) (key' : String)
        → first is_open (window o from key' ∷ is) ≡ some i
        → (first is_open is ≡ some i → suc (open_windows (close_window is key t)) ≡ open_windows is)
        → suc (open_windows (close_window (window o from key' ∷ is) key t))
          ≡ open_windows (window o from key' ∷ is)
    at_head (some u) from key' g ih = ih g
    at_head none from key' g ih = rw (same_key (window none from key') g) refl

-- After an accepted installation the fold leaves exactly one window of the component open.
pub install-OneWindow :
    (rules : Rules) (s : Store) (e : Entry) (id key : String) (r : ComponentRecords)
    (d d' : Dict Value)
    → install rules s e (component_of (id, r)) d ≡ accepted d'
    → open_windows (move rules.py component_install key e r).installations ≡ 1
unfolding install component_of found_or ◌>>=◌
install-OneWindow rules s e id key r d d' h =
    open_windows-append r.installations _ refl
    ∙ ap suc (none_open r.installations (nothing_open (first is_open r.installations) _ h))
  where
    nothing_open :
        (o : Option Installation) (j : Judged (Unit {0}))
        → (found_or o j (λ i. refuse 409 (installed_on i.aircraft_key)) >>= λ u. accepted d)
          ≡ accepted d'
        → o ≡ none
    nothing_open none j q = refl
    nothing_open (some i) j q = cc

-- After an accepted removal of a component with at most one open window the fold leaves none open.
pub remove-NoWindow :
    (rules : Rules) (e : Entry) (id key : String) (r : ComponentRecords) (d d' : Dict Value)
    → open_windows r.installations ≤ 1
    → remove (component_of (id, r)) key d ≡ accepted d'
    → open_windows (move rules.py component_remove key e r).installations ≡ 0
unfolding remove component_of found_or
remove-NoWindow rules e id key r d d' le h = closes (first is_open r.installations) refl h
  where
    elsewhere : {k : String} → refuse 409 (installed_elsewhere k) ≡ accepted d' → ⊥
    elsewhere q = cc

    closes :
        (o : Option Installation)
        → first is_open r.installations ≡ o
        → found_or o (refuse 409 not_installed) (λ i.
          if str_eq i.aircraft_key key
          then accepted d
          else refuse 409 (installed_elsewhere i.aircraft_key))
          ≡ accepted d'
        → open_windows (close_window r.installations key e.occurred_utc) ≡ 0
    closes none p q = cc
    closes (some i) p q = elim (Bool-cases (str_eq i.aircraft_key key)) [
      | inl same ↦ omega (arith, le, open_windows-close r.installations i key e.occurred_utc p same)
      | inr other ↦ absurd (
          elsewhere (
            subst
              (λ b.
                (if b then accepted d else refuse 409 (installed_elsewhere i.aircraft_key))
                ≡ accepted d')
              other q))
    ]
