-- ===== src/Base/Sort.antt =====
-- Python's `sorted` and `list.sort`: a stable sort by an order on keys, as an insertion sort.
use mathlib.Core.List.{Perm}
use mathlib.Core.List.Perm
use mathlib.Core.Path.{◌≡◌, refl}
use mathlib.Core.Bool.{Bool, true, false, ◌||◌}
use mathlib.Core.List.{List, [], ◌∷◌}
use native.Mathlib.Omega.{arith}
use mathlib.Core.Logic.{◌⊎◌, inl, inr}
use uas_sustainment_workbenc.Base.Tests.{if◌then◌else◌, Bool-cases}
use uas_sustainment_workbenc.Base.Lists.{All, any}

module _ {ℓ} {A : Type ℓ} (le : A → A → Bool) where
  -- An element goes in front of the first one that does not sort before it: ties keep their order.
  abbrev pub insert : A → List A → List A
  insert x [] = x ∷ []
  insert x (y ∷ ys) = let rest = insert x ys in if le x y then x ∷ y ∷ ys else y ∷ rest

  abbrev pub sort_by : List A → List A
  sort_by [] = []
  sort_by (x ∷ xs) = insert x (sort_by xs)

  -- Each element is at most every later one.
  abbrev pub IsSorted : List A → Type 0
  IsSorted [] = Unit
  IsSorted (x ∷ xs) = All (λ y. le x y ≡ true) xs × IsSorted xs

  -- The order is total and transitive, as Python assumes of the keys it sorts by.
  pub record IsOrder : Type ℓ where
    pub total : (x y : A) → (le x y ≡ true) ⊎ (le y x ≡ true)
    pub trans : (x y z : A) → le x y ≡ true → le y z ≡ true → le x z ≡ true

  All-trans :
      IsOrder
      → (x y : A) (xs : List A) → le x y ≡ true
      → All (λ z. le y z ≡ true) xs
      → All (λ z. le x z ≡ true) xs
  All-trans o x y [] h a = tt
  All-trans o x y (z ∷ zs) h a = (o.trans x y z h a.0, All-trans o x y zs h a.1)

  pub All-insert {κ} : (P : A → Type κ) (x : A) (xs : List A) → P x → All P xs → All P (insert x xs)
  All-insert P x [] h a = (h, tt)
  All-insert P x (y ∷ ys) h a = elim (Bool-cases (le x y)) [
    | inl e ↦ rw e (h, a)
    | inr e ↦ rw e (a.0, All-insert P x ys h a.1)
  ]

  pub All-sort_by {κ} : (P : A → Type κ) (xs : List A) → All P xs → All P (sort_by xs)
  All-sort_by P [] h = tt
  All-sort_by P (x ∷ xs) h = All-insert P x (sort_by xs) h.0 (All-sort_by P xs h.1)

  insert-IsSorted : IsOrder → (x : A) (xs : List A) → IsSorted xs → IsSorted (insert x xs)
  insert-IsSorted o x [] s = (tt, tt)
  insert-IsSorted o x (y ∷ ys) s = elim (Bool-cases (le x y)) [
    | inl e ↦ rw e ((e, All-trans o x y ys e s.0), s)
    | inr e ↦
        rw e
          (All-insert (λ z. le y z ≡ true) x ys (le_of_not o x y e) s.0, insert-IsSorted o x ys s.1)
  ]
    where
      le_of_not : IsOrder → (x y : A) → le x y ≡ false → le y x ≡ true
      le_of_not o x y e = elim (o.total x y) [ inl h ↦ cc | inr h ↦ h ]

  pub sort_by-IsSorted : IsOrder → (xs : List A) → IsSorted (sort_by xs)
  sort_by-IsSorted o [] = tt
  sort_by-IsSorted o (x ∷ xs) = insert-IsSorted o x (sort_by xs) (sort_by-IsSorted o xs)

  insert-perm : (x : A) (xs : List A) → Perm (insert x xs) (x ∷ xs)
  insert-perm x [] = Perm.refl _
  insert-perm x (y ∷ ys) = elim (Bool-cases (le x y)) [
    | inl e ↦ rw e (Perm.refl _)
    | inr e ↦ rw e (Perm.trans (Perm.cons y (insert-perm x ys)) (Perm.swap x y ys))
  ]

  pub sort_by-perm : (xs : List A) → Perm (sort_by xs) xs
  sort_by-perm [] = Perm.refl _
  sort_by-perm (x ∷ xs) = Perm.trans (insert-perm x (sort_by xs)) (Perm.cons x (sort_by-perm xs))

  pub any-insert : (p : A → Bool) (x : A) (xs : List A) → any p (insert x xs) ≡ (p x || any p xs)
  any-insert p x [] = refl
  any-insert p x (y ∷ ys) = ground (arith, any-insert p x ys)

  pub any-sort_by : (p : A → Bool) (xs : List A) → any p (sort_by xs) ≡ any p xs
  any-sort_by p [] = refl
  any-sort_by p (x ∷ xs) = ground (arith, any-insert p x (sort_by xs), any-sort_by p xs)

  All-of_insert {κ} : (P : A → Type κ) (x : A) (xs : List A) → All P (insert x xs) → P x × All P xs
  All-of_insert P x [] h = h
  All-of_insert P x (y ∷ ys) h = elim (Bool-cases (le x y)) [
    | inl e ↦ rw e at h
    | inr e ↦
        let k : P y × All P (insert x ys) = rw e at h in
        let (px, pys) = All-of_insert P x ys k.1 in (px, (k.0, pys))
  ]

  -- What holds of every element of the sorted list holds of every element.
  pub All-of_sorted {κ} : (P : A → Type κ) (xs : List A) → All P (sort_by xs) → All P xs
  All-of_sorted P [] h = tt
  All-of_sorted P (x ∷ xs) h =
      let (px, pxs) = All-of_insert P x (sort_by xs) h in (px, All-of_sorted P xs pxs)
