-- ===== src/Hex/RoundTrip.antt =====
-- The text of an info hash determines the hash.
use bttracker.Common.{
  ℕ, zero, suc, ◌+◌, ◌-◌, ◌*◌, ◌<◌, ◌≡◌, refl, arith, Bool, true, ◌&&◌, ◌||◌, [], ◌∷◌, length, All,
  ltb, leb, ◌==◌, if◌then◌else◌,
}
use bttracker.Memory.{Bytes, IsByte}
use bttracker.Hex.{high_digit, low_digit, hex_digits}

-- The value of a lower-case hexadecimal digit.
abbrev pub digit_value : ℕ → ℕ
digit_value c = if ltb c b'a' then c - b'0' else c - b'a' + 10

-- The bytes that pairs of digits stand for.
abbrev pub from_hex : Bytes → Bytes
from_hex [] = []
from_hex (h ∷ []) = []
from_hex (h ∷ l ∷ cs) = (digit_value h * 16 + digit_value l) ∷ from_hex cs

abbrev is_digit : ℕ → Bool
is_digit c = (leb b'0' c && leb c b'9') || (leb b'a' c && leb c b'f')

-- What holds of each byte, tested at every byte.
abbrev good : ℕ → Bool
good b =
    (digit_value (high_digit b) * 16 + digit_value (low_digit b) == b)
    && (is_digit (high_digit b) && is_digit (low_digit b))

all_below : ℕ → (ℕ → Bool) → Bool
all_below zero f = true
all_below (suc n) f = f n && all_below n f

all_below_sound : (n : ℕ) (f : ℕ → Bool) (b : ℕ) → all_below n f ≡ true → b < n → f b ≡ true
unfolding all_below
all_below_sound zero f b h lt = absurd (omega arith)
all_below_sound (suc n) f b h lt = ground (arith, all_below_sound n f b)

bytes_good : all_below 256 good ≡ true
unfolding all_below high_digit low_digit
bytes_good = refl

byte_good : (b : ℕ) → b < 256 → good b ≡ true
byte_good b h = all_below_sound 256 good b bytes_good h

both_true : (a b : Bool) → (a && b) ≡ true → (a ≡ true) × (b ≡ true)
both_true a b h = ground arith

byte_value : (b : ℕ) → b < 256 → digit_value (high_digit b) * 16 + digit_value (low_digit b) ≡ b
byte_value b h = ground (arith, byte_good b h)

abbrev pub IsHexDigit : ℕ → Type 0
IsHexDigit c = is_digit c ≡ true

-- For a list of bytes, decoding the text gives the bytes back.
pub from_hex-hex_digits : (bin : Bytes) → All IsByte bin → from_hex (hex_digits bin) ≡ bin
unfolding hex_digits
from_hex-hex_digits [] h = refl
from_hex-hex_digits (b ∷ bin) h = rw (byte_value b h.0, from_hex-hex_digits bin h.1)

high_digit-IsHexDigit : (b : ℕ) → b < 256 → IsHexDigit (high_digit b)
high_digit-IsHexDigit b h = (both_true _ _ (both_true _ _ (byte_good b h)).1).0

low_digit-IsHexDigit : (b : ℕ) → b < 256 → IsHexDigit (low_digit b)
low_digit-IsHexDigit b h = (both_true _ _ (both_true _ _ (byte_good b h)).1).1

-- For a list of bytes, the text has two digits a byte, each one of 0 to 9 and a to f.
pub hex_digits_shape :
    (bin : Bytes)
    → All IsByte bin
    → (length (hex_digits bin) ≡ 2 * length bin) × All IsHexDigit (hex_digits bin)
unfolding hex_digits
hex_digits_shape [] h = (refl, tt)
hex_digits_shape (b ∷ bin) h =
    let (count, digits) = hex_digits_shape bin h.1 in
    (omega arith, (high_digit-IsHexDigit b h.0, (low_digit-IsHexDigit b h.0, digits)))
