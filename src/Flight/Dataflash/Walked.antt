-- ===== src/Flight/Dataflash/Walked.antt =====
-- The framing check ends.
use uas_sustainment_workbenc.Base.{
  ℕ, zero, suc, ◌+◌, ◌-◌, ◌==◌, ltb, leb, ◌<◌, ◌≡◌, refl, Bool, true, false, not, ◌&&◌, length,
  Option, none, some, List, arith, if◌then◌else◌,
}
use uas_sustainment_workbenc.Flight.Dataflash.{
  FrameError, Framing, fmt_type, header, byte, drop, Lengths, set, first_lengths, Step, stop, go,
  end, last, advance, if_fits, frame_step, frames_from, check_framing,
}

module _ (char_size : ℕ → Option ℕ) (size : ℕ) where
  -- A round that goes on is inside the file, and goes on by at least a byte.
  abbrev Advances : ℕ → Step → Type 0
  Advances at (stop r) = Unit
  Advances at (go ls n) = (at < last char_size size) × (0 < n)

  Advances-if :
      (at : ℕ) (b : Bool) (s t : Step)
      → (b ≡ true → Advances at s)
      → (b ≡ false → Advances at t)
      → Advances at (if b then s else t)
  Advances-if at true s t f g = f refl
  Advances-if at false s t f g = g refl

  Advances-advance :
      (lengths : Lengths) (at kind : ℕ)
      → at < last char_size size
      → Advances at (advance char_size size lengths at kind)
  Advances-advance lengths at kind h =
      Advances-if at (lengths kind == 0) _ _
        (λ none_known. Advances-if at (leb (end char_size size) at) _ _ (λ quiet. tt) (λ loud. tt))
        (λ known. (h, positive (lengths kind) known))
    where
      positive : (n : ℕ) → (n == 0) ≡ false → 0 < n
      positive zero p = cc p
      positive (suc n) p = omega arith

  Advances-if_fits :
      (at : ℕ) (e : Option FrameError) (s : Step)
      → Advances at s
      → Advances at (if_fits char_size size e s)
  Advances-if_fits at none s h = h
  Advances-if_fits at (some e) s h = tt

  Advances-frame_step :
      (lengths : Lengths) (at : ℕ) (rest : List ℕ)
      → Advances at (frame_step char_size size lengths at rest)
  unfolding frame_step
  Advances-frame_step lengths at rest =
      Advances-if at (not (ltb at (last char_size size))) _ _ (λ past. tt)
        λ inside.
          let h = below at (last char_size size) inside in
          Advances-if at (not ((byte rest 0 == 163) && (byte rest 1 == 149))) _ _
            (λ no_sync.
              Advances-if at (leb (end char_size size) at) _ _ (λ quiet. (h, omega arith))
                (λ loud. tt))
            (λ sync.
              Advances-if at (byte rest 2 == fmt_type) _ _
                (λ defines.
                  Advances-if at (leb size (at + 4)) _ _ (λ cut. tt)
                    λ whole.
                      Advances-if at (ltb (byte rest 4) header && ltb at (end char_size size)) _ _
                        (λ short. tt)
                        λ long. Advances-if_fits at _ _ (
                          Advances-advance (set lengths (byte rest 3) (byte rest 4)) at fmt_type h))
                (λ other. Advances-advance lengths at (byte rest 2) h))
    where
      below : (m n : ℕ) → not (ltb m n) ≡ false → m < n
      below m n h = ground (arith, h)

  frames_from-ends :
      (fuel : ℕ) (lengths : Lengths) (at : ℕ) (rest : List ℕ)
      → last char_size size - at < fuel
      → (r : Framing) × (frames_from char_size size fuel lengths at rest ≡ some r)
  unfolding frames_from
  frames_from-ends zero lengths at rest h = absurd (omega (arith, h))
  frames_from-ends (suc fuel) lengths at rest h =
      of_step (frame_step char_size size lengths at rest) (Advances-frame_step lengths at rest)
        (λ ls n m. frames_from-ends fuel ls (at + n) (drop n rest) m)
    where
      of_step :
          (s : Step)
          → Advances at s
          → ((ls : Lengths) (n : ℕ)
              → last char_size size - (at + n) < fuel
              → (r : Framing) × (frames_from char_size size fuel ls (at + n) (drop n rest)
                  ≡ some r))
          → (r : Framing) × ((elim s as (λ x. Option Framing) [
            | stop r ↦ some r
            | go ls n ↦ frames_from char_size size fuel ls (at + n) (drop n rest)
          ])
              ≡ some r)
      of_step (stop r) a later = (r, refl)
      of_step (go ls n) (inside, some_bytes) later =
          later ls n (omega (arith, inside, some_bytes, h))

-- The framing check ends on every file, whatever its bytes and whatever lengths its definitions give: as many
-- rounds as the file has bytes, and one, are enough.
pub check_framing-ends :
    (char_size : ℕ → Option ℕ) (bytes : List ℕ)
    → (r : Framing) × (check_framing char_size bytes ≡ some r)
unfolding check_framing
check_framing-ends char_size bytes =
    frames_from-ends char_size (length bytes) (length bytes + 1) first_lengths 0 bytes (omega arith)
