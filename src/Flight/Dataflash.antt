-- ===== src/Flight/Dataflash.antt =====
-- flight/ardupilot.py: the framing check a DataFlash log passes before pymavlink reads it. A file is the list
-- of its bytes; the size pymavlink gives each format character is a parameter.
use uas_sustainment_workbenc.Base.{
  ℕ, zero, suc, ◌+◌, ◌-◌, ◌==◌, ltb, leb, Bool, true, false, not, ◌&&◌, length, Option, none, some,
  List, [], ◌∷◌, ◌++◌, if◌then◌else◌,
}
pub mod Walked
pub mod Accepts
pub mod Tests

-- Why a file is refused, and where.
pub data FrameError : Type 0 where
  no_size wrong_length noise short_definition unknown_type : ℕ → FrameError

pub data Framing : Type 0 where
  framed : Framing
  refused : FrameError → Framing

-- FMT_TYPE, FMT_LENGTH, HEADER and QUIET_TAIL
abbrev pub fmt_type : ℕ
fmt_type = 128

abbrev pub fmt_length : ℕ
fmt_length = 89

abbrev pub header : ℕ
header = 3

abbrev pub quiet_tail : ℕ
quiet_tail = 528

-- data[n], which the code reads inside the file only
abbrev pub byte : List ℕ → ℕ → ℕ
byte [] n = 0
byte (b ∷ bs) zero = b
byte (b ∷ bs) (suc n) = byte bs n

abbrev pub drop : ℕ → List ℕ → List ℕ
drop zero bs = bs
drop (suc n) [] = []
drop (suc n) (b ∷ bs) = drop n bs

abbrev pub take : ℕ → List ℕ → List ℕ
take zero bs = []
take (suc n) [] = []
take (suc n) (b ∷ bs) = b ∷ take n bs

-- `lengths`, the length of each type, and lengths[t] = n
abbrev pub Lengths : Type 0
Lengths = ℕ → ℕ

abbrev pub set : Lengths → ℕ → ℕ → Lengths
set lengths t n k = if k == t then n else lengths k

abbrev pub first_lengths : Lengths
first_lengths = set (λ k. 0) fmt_type fmt_length

-- What a round of the walk does: it ends, or goes on some bytes further.
pub data Step : Type 0 where
  stop : Framing → Step
  go : Lengths → ℕ → Step

module _ (char_size : ℕ → Option ℕ) where
  -- The loop of `_check_fits`: the size of a message by its format, to the first NUL.
  unfoldable pub format_need : ℕ → List ℕ → Option ℕ
  format_need need [] = some need
  format_need need (c ∷ cs) =
      if c == 0
      then some need
      else elim (char_size c) [ none ↦ none | some n ↦ format_need (need + n) cs ]

  abbrev pub fits_need : ℕ → ℕ → Option ℕ → Option FrameError
  fits_need at given none = some (no_size at)
  fits_need at given (some need) = if given == need then none else some (wrong_length at)

  -- `_check_fits` of the definition that `rest` begins with
  unfoldable pub check_fits : ℕ → List ℕ → Option FrameError
  unfolding format_need
  check_fits at rest = fits_need at (byte rest 4) (format_need header (take 16 (drop 9 rest)))

  module _ (size : ℕ) where
    -- `end` and `last`
    abbrev pub end : ℕ
    end = if leb quiet_tail size then size - quiet_tail + 1 else size - header

    abbrev pub last : ℕ
    last = size - header

    abbrev pub advance : Lengths → ℕ → ℕ → Step
    advance lengths at kind =
        if lengths kind == 0
        then (if leb end at then stop framed else stop (refused (unknown_type at)))
        else go lengths (lengths kind)

    abbrev pub if_fits : Option FrameError → Step → Step
    if_fits none s = s
    if_fits (some e) s = stop (refused e)

    -- A message that is a format definition.
    abbrev pub on_definition : Lengths → ℕ → List ℕ → Step
    on_definition lengths at rest =
        if leb size (at + 4)
        then stop framed
        else if ltb (byte rest 4) header && ltb at end
        then stop (refused (short_definition at))
        else if_fits (if leb (at + lengths fmt_type) size then check_fits at rest else none)
            (advance (set lengths (byte rest 3) (byte rest 4)) at fmt_type)

    -- One round of the loop of `_check_framing`, at the bytes from `at` on.
    unfoldable pub frame_step : Lengths → ℕ → List ℕ → Step
    unfolding check_fits
    frame_step lengths at rest =
        if not (ltb at last)
        then stop framed
        else if not ((byte rest 0 == 163) && (byte rest 1 == 149))
        then (if leb end at then go lengths 1 else stop (refused (noise at)))
        else if byte rest 2 == fmt_type
        then on_definition lengths at rest
        else advance lengths at (byte rest 2)

    -- The loop, on fuel.
    unfoldable pub frames_from : ℕ → Lengths → ℕ → List ℕ → Option Framing
    unfolding frame_step
    frames_from zero lengths at rest = none
    frames_from (suc fuel) lengths at rest = elim (frame_step lengths at rest) [
      | stop r ↦ some r
      | go ls n ↦ frames_from fuel ls (at + n) (drop n rest)
    ]

  -- `_check_framing`
  unfoldable pub check_framing : List ℕ → Option Framing
  unfolding frames_from
  check_framing bytes = frames_from (length bytes) (length bytes + 1) first_lengths 0 bytes
