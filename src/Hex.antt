-- ===== src/Hex.antt =====
-- `bt_bytearray_to_hexarray` of src/data.c: an info hash as text.
pub mod RoundTrip
pub mod Runs
pub mod Pipelines
use bttracker.Common.{
  ℕ, suc, ◌+◌, ◌-◌, ◌*◌, ◌/◌, ◌^◌, Bool, bit_and, List, [], ◌∷◌, length, ltb, leb, get_elem?,
  Option, none, some, if◌then◌else◌,
}
use bttracker.Memory.{Bytes}
use bttracker.Text.{codes}
use bttracker.Platform.{Platform}
use bttracker.Exec.{M, ◌>>=◌, pure, malloc_unchecked}

-- An `int8_t` as an `int`, by its bit pattern; `>>` on a negative `int` shifts ones in.
int_of_int8 : ℕ → ℕ
int_of_int8 b = if ltb b 128 then b else b + 2 ^ 32 - 256

shift_right4 : ℕ → ℕ
shift_right4 w = if leb (2 ^ 31) w then w / 16 + 15 * 2 ^ 28 else w / 16

-- `hex_str[i]`; the array also has a zero byte, which no masked index reaches.
hex_char : ℕ → ℕ
hex_char i = elim (get_elem? (codes "0123456789abcdef") i) [ some c ↦ c | none ↦ 0 ]

-- The two digits of a byte.
high_digit : ℕ → ℕ
unfolding int_of_int8 shift_right4 hex_char
high_digit b = hex_char (bit_and (shift_right4 (int_of_int8 b)) 0xf)

low_digit : ℕ → ℕ
unfolding int_of_int8 hex_char
low_digit b = hex_char (bit_and (int_of_int8 b) 0xf)

-- The loop over the bytes.
pub hex_digits : Bytes → Bytes
unfolding high_digit low_digit
hex_digits [] = []
hex_digits (b ∷ bin) = high_digit b ∷ low_digit b ∷ hex_digits bin

-- The block has room for the digits and the zero byte behind them, and is filled completely.
pub bytearray_to_hexarray : (p : Platform) → Bytes → M p Bytes
bytearray_to_hexarray p bin = malloc_unchecked p (length bin * 2 + 1) >>= λ _. pure (hex_digits bin)
