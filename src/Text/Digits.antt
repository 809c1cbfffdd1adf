-- ===== src/Text/Digits.antt =====
-- The decimal digits: how many there are, and what they read back as.
use bttracker.Common.{
  ℕ, zero, suc, ◌+◌, ◌*◌, ◌-◌, ◌/◌, ◌%◌, ◌^◌, ◌<◌, ◌≤◌, ◌≡◌, refl, ap, arith, [], ◌∷◌, ◌++◌, length,
  length-append, if◌then◌else◌, false,
}
use bttracker.Memory.{Bytes, is_negative32}
use bttracker.Text.{digits, print_int}

-- The number that a text of digits reads as, with the number read so far.
unfoldable pub read_decimal : ℕ → Bytes → ℕ
read_decimal n [] = n
read_decimal n (c ∷ s) = read_decimal (10 * n + (c - 48)) s

div_ten : (k n : ℕ) → n < 10 ^ suc k → n / 10 < 10 ^ k
div_ten k n h = omega arith

pub length-digits : (fuel k n : ℕ) → n < 10 ^ suc k → length (digits fuel n) ≤ suc k
unfolding digits
length-digits zero k n h = omega arith
length-digits (suc fuel) zero n h = ground arith
length-digits (suc fuel) (suc k) n h =
    let ih = length-digits fuel k (n / 10) (div_ten (suc k) n h) in
    ground (arith, length-append (digits fuel (n / 10)) ((n % 10 + 48) ∷ []))

read_decimal-append :
    (n : ℕ) (s : Bytes) (c : ℕ) → read_decimal n (s ++ (c ∷ [])) ≡ 10 * read_decimal n s + (c - 48)
unfolding read_decimal
read_decimal-append n [] c = refl
read_decimal-append n (d ∷ s) c = read_decimal-append (10 * n + (d - 48)) s c

pub read_decimal-digits : (fuel n : ℕ) → n < 10 ^ fuel → read_decimal 0 (digits fuel n) ≡ n
unfolding digits read_decimal
read_decimal-digits zero n h = omega arith
read_decimal-digits (suc fuel) n h =
    let ih = read_decimal-digits fuel (n / 10) (div_ten fuel n h) in
    ground (arith, read_decimal-append 0 (digits fuel (n / 10)) (n % 10 + 48))

small_positive : (w : ℕ) → w < 2 ^ 31 → is_negative32 w ≡ false
unfolding is_negative32
small_positive w h = ground arith

pub print_int_positive : (w : ℕ) → w < 2 ^ 31 → print_int w ≡ digits 10 w
unfolding print_int
print_int_positive w h =
    ap (λ b. if b then 45 ∷ digits 10 (2 ^ 32 - w) else digits 10 w) (small_positive w h)
