-- ===== src/Flight/Dataflash/Accepts.antt =====
-- The framing check takes every log that frames from its first byte to its last.
use uas_sustainment_workbenc.Base.{
  ℕ, zero, suc, ◌+◌, ◌-◌, ◌==◌, ltb, leb, ◌≤◌, ◌<◌, ◌≡◌, refl, ap, ◌∙◌, Bool-cases, inl, inr, true,
  false, length, length-append, Option, some, List, [], ◌∷◌, ◌++◌, arith,
}
use uas_sustainment_workbenc.Flight.Dataflash.{
  framed, fmt_type, fmt_length, header, drop, take, Lengths, set, first_lengths, format_need,
  check_fits, stop, go, last, advance, frame_step, frames_from, check_framing,
}

-- The bytes of a log that frames: messages of the length their type has, and definitions whose length is that
-- of their format.
pub data IsLog (char_size : ℕ → Option ℕ) : Lengths → List ℕ → Type 0 where
  ends : (lengths : Lengths) → IsLog char_size lengths []
  message :
      (lengths : Lengths) (kind : ℕ) (body rest : List ℕ)
      → (kind == fmt_type) ≡ false
      → lengths kind ≡ length body + 3
      → IsLog char_size lengths rest
      → IsLog char_size lengths (163 ∷ 149 ∷ kind ∷ (body ++ rest))
  definition :
      (lengths : Lengths) (t n : ℕ) (body rest : List ℕ)
      → length body ≡ 84
      → format_need char_size header (take 16 (drop 4 body)) ≡ some n
      → 3 ≤ n
      → lengths fmt_type ≡ fmt_length
      → set lengths t n fmt_type ≡ fmt_length
      → IsLog char_size (set lengths t n) rest
      → IsLog char_size lengths (163 ∷ 149 ∷ fmt_type ∷ t ∷ n ∷ (body ++ rest))

drop-append : (body rest : List ℕ) → drop (length body) (body ++ rest) ≡ rest
drop-append [] rest = refl
drop-append (b ∷ body) rest = drop-append body rest

drop-message :
    (a b c n : ℕ) (body rest : List ℕ)
    → n ≡ length body + 3
    → drop n (a ∷ b ∷ c ∷ (body ++ rest)) ≡ rest
drop-message a b c n body rest h =
    ap (λ k. drop k (a ∷ b ∷ c ∷ (body ++ rest))) (h ∙ three (length body)) ∙ drop-append body rest
  where
    three : (k : ℕ) → k + 3 ≡ suc (suc (suc k))
    three k = omega arith

take-append : (n : ℕ) (body rest : List ℕ) → n ≤ length body → take n (body ++ rest) ≡ take n body
take-append zero body rest h = refl
take-append (suc n) [] rest h = absurd (omega (arith, h))
take-append (suc n) (b ∷ body) rest h =
    ap (λ bs. b ∷ bs) (take-append n body rest (omega (arith, h)))

ltb-true : (m n : ℕ) → m < n → ltb m n ≡ true
ltb-true m n h = ground (arith, h)

true-ltb : (m n : ℕ) → ltb m n ≡ true → m < n
true-ltb m n h = ground (arith, h)

ltb-false : (m n : ℕ) → n ≤ m → ltb m n ≡ false
ltb-false m n h = ground (arith, h)

leb-true : (m n : ℕ) → m ≤ n → leb m n ≡ true
leb-true m n h = ground (arith, h)

leb-false : (m n : ℕ) → n < m → leb m n ≡ false
leb-false m n h = ground (arith, h)

==_refl : (n : ℕ) → (n == n) ≡ true
==_refl n = ground arith

drop_append :
    (n : ℕ) (body rest : List ℕ) → n ≤ length body → drop n (body ++ rest) ≡ drop n body ++ rest
drop_append zero body rest h = refl
drop_append (suc n) [] rest h = absurd (omega (arith, h))
drop_append (suc n) (b ∷ body) rest h = drop_append n body rest (omega (arith, h))

length-drop : (n : ℕ) (body : List ℕ) → length (drop n body) ≡ length body - n
length-drop zero body = omega arith
length-drop (suc n) [] = omega arith
length-drop (suc n) (b ∷ body) = length-drop n body ∙ omega arith

-- The format of a definition is in the definition.
take-drop :
    (body rest : List ℕ)
    → 20 ≤ length body
    → take 16 (drop 4 (body ++ rest)) ≡ take 16 (drop 4 body)
take-drop body rest h =
    ap (take 16) (drop_append 4 body rest (omega (arith, h)))
    ∙ take-append 16 (drop 4 body) rest (omega (arith, h, length-drop 4 body))

module _ (char_size : ℕ → Option ℕ) (size : ℕ) where
  step-past :
      (lengths : Lengths) (at : ℕ) (bytes : List ℕ)
      → ltb at (last char_size size) ≡ false
      → frame_step char_size size lengths at bytes ≡ stop framed
  unfolding frame_step
  step-past lengths at bytes h = rw h refl

  from_stop :
      (fuel at : ℕ) (lengths : Lengths) (bytes : List ℕ)
      → frame_step char_size size lengths at bytes ≡ stop framed
      → frames_from char_size size (suc fuel) lengths at bytes ≡ some framed
  unfolding frames_from
  from_stop fuel at lengths bytes h = rw (h, frames_from) refl

  from_go :
      (fuel at n : ℕ) (lengths ls : Lengths) (bytes : List ℕ)
      → frame_step char_size size lengths at bytes ≡ go ls n
      → frames_from char_size size (suc fuel) lengths at bytes
        ≡ frames_from char_size size fuel ls (at + n) (drop n bytes)
  unfolding frames_from
  from_go fuel at n lengths ls bytes h = rw (h, frames_from) refl

  -- A round that goes on by a message's length, or is past the last header.
  go_on :
      (fuel at n : ℕ) (lengths ls : Lengths) (bytes rest : List ℕ)
      → (at < last char_size size → frame_step char_size size lengths at bytes ≡ go ls n)
      → drop n bytes ≡ rest
      → frames_from char_size size fuel ls (at + n) rest ≡ some framed
      → frames_from char_size size (suc fuel) lengths at bytes ≡ some framed
  go_on fuel at n lengths ls bytes rest step dropped later =
      elim (Bool-cases (ltb at (last char_size size))) [
        | inr past ↦ from_stop fuel at lengths bytes (step-past lengths at bytes past)
        | inl inside ↦
            from_go fuel at n lengths ls bytes (step (true-ltb at (last char_size size) inside))
            ∙ ap (frames_from char_size size fuel ls (at + n)) dropped
            ∙ later
      ]

  advance-known :
      (lengths : Lengths) (at kind n : ℕ)
      → lengths kind ≡ n
      → 3 ≤ n
      → advance char_size size lengths at kind ≡ go lengths n
  advance-known lengths at kind n h k = rw (h, positive n k) refl
    where
      positive : (n : ℕ) → 3 ≤ n → (n == 0) ≡ false
      positive n h = ground (arith, h)

  step-message :
      (lengths : Lengths) (at kind : ℕ) (body rest : List ℕ)
      → (kind == fmt_type) ≡ false
      → lengths kind ≡ length body + 3
      → at < last char_size size
      → frame_step char_size size lengths at (163 ∷ 149 ∷ kind ∷ (body ++ rest))
        ≡ go lengths (length body + 3)
  unfolding frame_step
  step-message lengths at kind body rest other known inside =
      rw (ltb-true at (last char_size size) inside, other)
        (advance-known lengths at kind (length body + 3) known (omega arith))

  step-definition :
      (lengths : Lengths) (at t n : ℕ) (body rest : List ℕ)
      → length body ≡ 84
      → format_need char_size header (take 16 (drop 4 body)) ≡ some n
      → 3 ≤ n
      → lengths fmt_type ≡ fmt_length
      → set lengths t n fmt_type ≡ fmt_length
      → at + 5 + length (body ++ rest) ≡ size
      → at < last char_size size
      → frame_step char_size size lengths at (163 ∷ 149 ∷ fmt_type ∷ t ∷ n ∷ (body ++ rest))
        ≡ go (set lengths t n) fmt_length
  unfolding frame_step check_fits
  step-definition lengths at t n body rest whole fits long own still here inside =
      rw
        (
          ltb-true at (last char_size size) inside,
          leb-false size (at + 4) (omega (arith, here)),
          ltb-false n header long,
          leb-true (at + lengths fmt_type) size
              (omega (arith, own, here, whole, length-append body rest)),
          take-drop body rest (omega (arith, whole)),
          fits,
          ==_refl n,
        )
        (advance-known (set lengths t n) at fmt_type fmt_length still (omega arith))

  frames_from-IsLog :
      (fuel at : ℕ) (lengths : Lengths) (bytes : List ℕ)
      → IsLog char_size lengths bytes
      → at + length bytes ≡ size
      → length bytes < fuel
      → frames_from char_size size fuel lengths at bytes ≡ some framed
  frames_from-IsLog zero at lengths bytes log h k = absurd (omega (arith, k))
  frames_from-IsLog (suc fuel) at lengths _ (ends _) h k =
      from_stop fuel at lengths []
        (step-past lengths at [] (ltb-false at (last char_size size) (omega (arith, h))))
  frames_from-IsLog (suc fuel) at lengths _ (message _ kind body rest other known log) h k =
      go_on fuel at (length body + 3) lengths lengths _ rest
        (step-message lengths at kind body rest other known)
        (drop-message 163 149 kind (length body + 3) body rest refl)
        (frames_from-IsLog fuel (at + (length body + 3)) lengths rest log
          (omega (arith, h, length-append body rest)) (omega (arith, k, length-append body rest)))
  frames_from-IsLog (suc fuel) at lengths _
        (definition _ t n body rest whole fits long own still log) h k =
      go_on fuel at fmt_length lengths (set lengths t n) _ rest
        (step-definition lengths at t n body rest whole fits long own still (omega (arith, h)))
        (drop-message 163 149 fmt_type fmt_length (t ∷ n ∷ body) rest (omega (arith, whole)))
        (frames_from-IsLog fuel (at + fmt_length) (set lengths t n) rest log
          (omega (arith, h, whole, length-append body rest))
          (omega (arith, k, whole, length-append body rest)))

-- A file whose bytes are messages from its first to its last, each of the length the definitions before it
-- give its type and each definition of the length its format needs, is framed: the check takes it.
pub check_framing-IsLog :
    (char_size : ℕ → Option ℕ) (bytes : List ℕ)
    → IsLog char_size first_lengths bytes
    → check_framing char_size bytes ≡ some framed
unfolding check_framing
check_framing-IsLog char_size bytes log =
    frames_from-IsLog char_size (length bytes) (length bytes + 1) 0 first_lengths bytes log
      (omega arith) (omega arith)
