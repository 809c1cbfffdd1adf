-- ===== src/Platform/Floats.antt =====
-- The double arithmetic that `randr` uses, and the facts of IEEE 754 that it relies on: integers
-- below 2 ^ 53 are exact, each operation on exact results is exact, and rounding is monotone.
-- No value that comes up is negative or no number.
use bttracker.Common.{ℕ, ◌+◌, ◌*◌, ◌/◌, ◌^◌, ◌≤◌, ◌<◌, ◌≡◌}

pub record Double : Type 1 where
  pub Carrier : Type 0
  pub of_ℕ : ℕ → Carrier
  pub div : Carrier → Carrier → Carrier
  pub mul : Carrier → Carrier → Carrier
  pub add : Carrier → Carrier → Carrier
  -- The conversion to an unsigned integer, by the value that is left without its fraction. The
  -- program leaves the range of `unsigned int` nowhere that a theorem speaks of.
  pub trunc : Carrier → ℕ

-- `le` is the order of the values.
pub record IsIeee (d : Double) : Type 1 where
  pub le : d.Carrier → d.Carrier → Type 0
  pub of_ℕ_mono : (m n : ℕ) → m ≤ n → le (d.of_ℕ m) (d.of_ℕ n)
  pub div_self : (n : ℕ) → 0 < n → n < 2 ^ 53 → d.div (d.of_ℕ n) (d.of_ℕ n) ≡ d.of_ℕ 1
  pub zero_div : (n : ℕ) → 0 < n → d.div (d.of_ℕ 0) (d.of_ℕ n) ≡ d.of_ℕ 0
  pub div_mono :
      (x y : d.Carrier) (n : ℕ)
      → 0 < n
      → n < 2 ^ 53
      → le x y
      → le (d.div x (d.of_ℕ n)) (d.div y (d.of_ℕ n))
  pub mul_exact :
      (m n : ℕ)
      → m < 2 ^ 53
      → n < 2 ^ 53
      → m * n < 2 ^ 53
      → d.mul (d.of_ℕ m) (d.of_ℕ n) ≡ d.of_ℕ (m * n)
  pub mul_mono :
      (m : ℕ) (x y : d.Carrier)
      → 0 < m
      → m < 2 ^ 53
      → le x y
      → le (d.mul (d.of_ℕ m) x) (d.mul (d.of_ℕ m) y)
  pub add_exact : (m n : ℕ) → m + n < 2 ^ 53 → d.add (d.of_ℕ m) (d.of_ℕ n) ≡ d.of_ℕ (m + n)
  pub add_mono : (x y : d.Carrier) (n : ℕ) → le x y → le (d.add x (d.of_ℕ n)) (d.add y (d.of_ℕ n))
  pub trunc_exact : (n : ℕ) → n < 2 ^ 53 → d.trunc (d.of_ℕ n) ≡ n
  pub trunc_mono : (x y : d.Carrier) → le x y → d.trunc x ≤ d.trunc y

-- More facts, about the numbers `m / 2 ^ 31`, which are exact for `m` below 2 ^ 53.
pub record IsDyadic (d : Double) (ieee : IsIeee d) : Type 1 where
  pub dyadic : ℕ → d.Carrier
  -- The quotient of two exact numbers is rounded to no more than an exact number that it does not
  -- exceed.
  pub div_dyadic :
      (r n m : ℕ)
      → 0 < n
      → r < 2 ^ 53
      → n < 2 ^ 53
      → m < 2 ^ 53
      → r * 2 ^ 31 ≤ m * n
      → ieee.le (d.div (d.of_ℕ r) (d.of_ℕ n)) (dyadic m)
  pub mul_dyadic :
      (k m : ℕ)
      → k < 2 ^ 53
      → m < 2 ^ 53
      → k * m < 2 ^ 53
      → d.mul (d.of_ℕ k) (dyadic m) ≡ dyadic (k * m)
  pub add_dyadic :
      (m l : ℕ) → m + l * 2 ^ 31 < 2 ^ 53 → d.add (dyadic m) (d.of_ℕ l) ≡ dyadic (m + l * 2 ^ 31)
  pub trunc_dyadic : (m : ℕ) → m < 2 ^ 53 → d.trunc (dyadic m) ≡ m / 2 ^ 31
