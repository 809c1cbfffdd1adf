-- ===== src/Text.antt =====
-- Text literals as bytes, and the decimal digits that `%d` prints.
pub mod Digits
use Prim.Native.Char.{code}
use Prim.Native.String.{String}
use bttracker.Common.{
  ℕ, zero, suc, ◌+◌, ◌-◌, ◌/◌, ◌%◌, ◌^◌, ◌≡◌, refl, [], ◌∷◌, ◌++◌, ltb, if◌then◌else◌, Bool, true,
  false, ◌&&◌, ◌==◌, arith,
}
use bttracker.Memory.{Bytes, is_negative32}

-- The code points of a text: its bytes, if it is ASCII.
abbrev pub codes : String → Bytes
codes String.[] = []
codes (String.◌∷◌ c s) = code c ∷ codes s

-- `strcmp(s, t) == 0`
unfoldable pub str_eq : Bytes → Bytes → Bool
str_eq [] [] = true
str_eq [] (d ∷ t) = false
str_eq (c ∷ s) [] = false
str_eq (c ∷ s) (d ∷ t) = c == d && str_eq s t

pub str_eq_sound : (s t : Bytes) → str_eq s t ≡ true → s ≡ t
unfolding str_eq
str_eq_sound [] [] h = refl
str_eq_sound [] (d ∷ t) h = cc
str_eq_sound (c ∷ s) [] h = cc
str_eq_sound (c ∷ s) (d ∷ t) h = ground (arith, str_eq_sound s t)

pub str_eq_refl : (s : Bytes) → str_eq s s ≡ true
unfolding str_eq
str_eq_refl [] = refl
str_eq_refl (c ∷ s) = ground (arith, str_eq_refl s)

-- The digits of a number below 10 ^ fuel.
unfoldable pub digits : ℕ → ℕ → Bytes
digits zero n = []
digits (suc fuel) n =
    let front = digits fuel (n / 10) in
    if ltb n 10 then (n + 48) ∷ [] else front ++ ((n % 10 + 48) ∷ [])

-- `%d` of an `int`, given by its bit pattern; ten digits are enough below 2 ^ 32.
unfoldable pub print_int : ℕ → Bytes
unfolding digits is_negative32
print_int w = if is_negative32 w then 45 ∷ digits 10 (2 ^ 32 - w) else digits 10 w

print_int_examples : (print_int 120 ≡ codes "120") × (print_int (2 ^ 32 - 7) ≡ codes "-7")
unfolding print_int
print_int_examples = (refl, refl)
