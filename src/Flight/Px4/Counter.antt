-- ===== src/Flight/Px4/Counter.antt =====
-- The counter PX4 keeps in two signed words.
use uas_sustainment_workbenc.Base.{
  ℕ, ℤ, pos, negsuc, ◌+ℤ◌, ◌*ℤ◌, ◌+◌, ◌-◌, ◌*◌, ◌/◌, ◌%◌, ltb, ◌<◌, ◌≡◌, ap, ◌∙◌, arith,
  if◌then◌else◌,
}
use uas_sustainment_workbenc.Flight.Px4.{word, low_word, counter_value}

-- A word as the signed number of 32 bits a parameter holds.
abbrev pub signed : ℕ → ℤ
signed n = if ltb n 2147483648 then pos n else negsuc (word - 1 - n)

low_word-signed : (n : ℕ) → n < word → low_word (signed n) ≡ n
low_word-signed n h = ground arith

signed-small : (n : ℕ) → n < 2147483648 → signed n ≡ pos n
signed-small n h = ground (arith, h)

times_word : (q r : ℕ) → pos q *ℤ pos word +ℤ pos r ≡ pos (q * word + r)
unfolding ◌+ℤ◌ ◌*ℤ◌
times_word q r = ground arith

-- A counter below 2^63 microseconds that is kept as a high and a low word, each a signed number of 32 bits,
-- is put together again whole.
pub counter_value-signed :
    (c : ℕ)
    → c < 9223372036854775808
    → counter_value (signed (c / word)) (signed (c % word)) ≡ pos c
unfolding counter_value
counter_value-signed c h =
    rw (low_word-signed (c % word) (omega arith), signed-small (c / word) (omega (arith, h)))
      (times_word (c / word) (c % word) ∙ ap pos (omega arith))
