-- ===== src/Flight/Ardupilot/Held.antt =====
-- The time a signal is set, by the microseconds at which it holds.
use uas_sustainment_workbenc.Base.{
  ℕ, zero, suc, ℤ, pos, ◌+ℤ◌, ◌-ℤ◌, ◌+◌, ◌-◌, ◌≤◌, ◌<◌, leb, ◌≡◌, refl, ap, ◌∙◌, Bool, true, false,
  List, [], ◌∷◌, arith, int_laws, if◌then◌else◌,
}
use mathlib.Core.Path.{subst}
use uas_sustainment_workbenc.Flight.Ardupilot.{Sample, is_set, time_while_set}
use uas_sustainment_workbenc.Flight.Ardupilot.Signals.{one_if}

-- Each sample is at or after the one before it; the last one is at `e`.
abbrev pub InOrder : ℕ → List Sample → ℕ → Type 0
InOrder s [] e = s ≡ e
InOrder s ((t, v) ∷ rest) e = (s ≤ t) × InOrder t rest e

-- Whether the signal of these samples holds at a microsecond: the last sample taken by then is set.
abbrev pub holds_at : ℤ → List Sample → ℕ → Bool
holds_at v [] u = is_set v
holds_at v ((t, x) ∷ rest) u = let later = holds_at x rest u in if leb t u then later else is_set v

-- How many of the `n` microseconds from `s` on pass a test.
abbrev pub count_from : (ℕ → Bool) → ℕ → ℕ → ℕ
count_from f s zero = 0
count_from f s (suc n) = one_if (f s) + count_from f (s + 1) n

count_from-append :
    (f : ℕ → Bool) (s m n : ℕ) → count_from f s (m + n) ≡ count_from f s m + count_from f (s + m) n
count_from-append f s zero n =
    let a : 0 + n ≡ n = omega arith in let b : s + 0 ≡ s = omega arith in rw (a, b) (omega arith)
count_from-append f s (suc m) n =
    let e : s + 1 + m ≡ s + suc m = omega arith in
    let later : count_from f (s + 1) (m + n) ≡ count_from f (s + 1) m + count_from f (s + suc m) n =
      rw (← e) (count_from-append f (s + 1) m n) in
    let shift : suc m + n ≡ suc (m + n) = omega arith in rw shift (omega (arith, later))

count_from-agree :
    (f g : ℕ → Bool) (s n : ℕ)
    → ((u : ℕ) → s ≤ u → u < s + n → f u ≡ g u)
    → count_from f s n ≡ count_from g s n
count_from-agree f g s zero h = refl
count_from-agree f g s (suc n) h =
    let later =
      count_from-agree f g (s + 1) n (λ u p q. h u (omega (arith, p)) (omega (arith, q))) in
    rw (h s (omega arith) (omega arith), later) refl

count_from-set : (s n : ℕ) → count_from (λ u. true) s n ≡ n
count_from-set s zero = refl
count_from-set s (suc n) = let later = count_from-set (s + 1) n in omega (arith, later)

count_from-clear : (s n : ℕ) → count_from (λ u. false) s n ≡ 0
count_from-clear s zero = refl
count_from-clear s (suc n) = let later = count_from-clear (s + 1) n in omega (arith, later)

before :
    (t : ℕ) (x v : ℤ) (rest : List Sample) (u : ℕ) → u < t → holds_at v ((t, x) ∷ rest) u ≡ is_set v
before t x v rest u h = ground (arith, h)

after :
    (t : ℕ) (x v : ℤ) (rest : List Sample) (u : ℕ)
    → t ≤ u
    → holds_at v ((t, x) ∷ rest) u ≡ holds_at x rest u
after t x v rest u h = ground (arith, h)

in_order : (t : ℕ) (rest : List Sample) (e : ℕ) → InOrder t rest e → t ≤ e
in_order t [] e p = omega (arith, p)
in_order t ((u, y) ∷ rest) e (p, q) = omega (arith, p, in_order u rest e q)

-- The time that a signal of ordered samples is set is the count of the microseconds, from its first
-- sample up to its last, at which it holds.
pub time_while_set-held :
    (s : ℕ) (v : ℤ) (rest : List Sample) (e : ℕ)
    → InOrder s rest e
    → time_while_set ((s, v) ∷ rest) ≡ pos (count_from (holds_at v rest) s (e - s))
unfolding time_while_set
time_while_set-held s v [] e h = let z : e - s ≡ 0 = omega (arith, h) in rw z refl
time_while_set-held s v ((t, x) ∷ rest) e (h, k) =
    sum (is_set v) (time_while_set ((t, x) ∷ rest)) (time_while_set-held t x rest e k) (
      count_from-agree (holds_at v ((t, x) ∷ rest)) (λ u. is_set v) s (t - s)
        (λ u p q. before t x v rest u (omega (arith, h, q))))
  where
    up_to : t ≤ e
    up_to = in_order t rest e k

    later :
        count_from (holds_at v ((t, x) ∷ rest)) t (e - t) ≡ count_from (holds_at x rest) t (e - t)
    later =
        count_from-agree (holds_at v ((t, x) ∷ rest)) (holds_at x rest) t (e - t)
          (λ u p q. after t x v rest u p)

    parts :
        count_from (holds_at v ((t, x) ∷ rest)) s (e - s)
        ≡ count_from (holds_at v ((t, x) ∷ rest)) s (t - s) + count_from (holds_at x rest) t (e - t)
    parts =
        let a : t - s + (e - t) ≡ e - s = omega (arith, h, up_to) in
        let b : s + (t - s) ≡ t = omega (arith, h) in
        subst
          (λ m.
            count_from (holds_at v ((t, x) ∷ rest)) s m
            ≡ count_from (holds_at v ((t, x) ∷ rest)) s (t - s)
              + count_from (holds_at x rest) t (e - t))
          a
          (count_from-append (holds_at v ((t, x) ∷ rest)) s (t - s) (e - t)
            ∙ ap (λ m. count_from (holds_at v ((t, x) ∷ rest)) s (t - s) + m)
                (ap (λ m. count_from (holds_at v ((t, x) ∷ rest)) m (e - t)) b ∙ later))

    sum :
        (b : Bool) (tail : ℤ)
        → tail ≡ pos (count_from (holds_at x rest) t (e - t))
        → count_from (holds_at v ((t, x) ∷ rest)) s (t - s) ≡ count_from (λ u. b) s (t - s)
        → (if b then pos t -ℤ pos s +ℤ tail else tail)
          ≡ pos (count_from (holds_at v ((t, x) ∷ rest)) s (e - s))
    sum true tail p q =
        let set = count_from-set s (t - s) in rw (parts, q, set, p) (omega (int_laws, h))
    sum false tail p q =
        let clear = count_from-clear s (t - s) in rw (parts, q, clear, p) (ap pos (omega arith))
