-- ===== src/Prelude/Words.antt =====
-- Machine words that the code uses as sets of flags: the word as the function from the place of a
-- bit to its value, and a mask, a constant of the source, as the list of the places of its bits.
use Prim.Native.Nat.{ℕ, zero, suc}
use mathlib.Core.Bool.{Bool, false, not, ◌||◌, ◌&&◌}
use mathlib.Core.List.{List, [], ◌∷◌}
use mathlib.Core.Option.{Option, none, some}
use linux_ker_dev.Prelude.Tests.{if◌then◌else◌, ◌==◌}

abbrev pub Word : Type 0
Word = ℕ → Bool

abbrev pub Mask : Type 0
Mask = List ℕ

-- Is the bit `i` set in the mask?
abbrev pub has_bit : Mask → ℕ → Bool
has_bit [] i = false
has_bit (b ∷ m) i = i == b || has_bit m i

-- The mask as a word.
abbrev pub of_mask : Mask → Word
of_mask m i = has_bit m i

abbrev pub no_bits : Word
no_bits i = false

-- `w & mask`, as a truth value.
abbrev pub test_mask : Word → Mask → Bool
test_mask w [] = false
test_mask w (b ∷ m) = w b || test_mask w m

-- `w | mask`
abbrev pub set_mask : Word → Mask → Word
set_mask w m i = w i || has_bit m i

-- `w & ~mask`
abbrev pub clear_mask : Word → Mask → Word
clear_mask w m i = w i && not (has_bit m i)

-- `w & mask`
abbrev pub keep_mask : Word → Mask → Word
keep_mask w m i = w i && has_bit m i

-- `a | b`, `a & b` and `a &~ b`
abbrev pub or_word : Word → Word → Word
or_word a b i = a i || b i

abbrev pub and_word : Word → Word → Word
and_word a b i = a i && b i

abbrev pub and_not_word : Word → Word → Word
and_not_word a b i = a i && not (b i)

-- The place of the lowest bit set among the `n` bits from the place `i` on.
unfoldable pub lowest_bit_from : Word → ℕ → ℕ → Option ℕ
lowest_bit_from w i zero = none
lowest_bit_from w i (suc n) = let rest = lowest_bit_from w (suc i) n in if w i then some i else rest
