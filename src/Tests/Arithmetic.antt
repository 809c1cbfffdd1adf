-- ===== src/Tests/Arithmetic.antt =====
-- A fixed-point arithmetic with 32 binary places in the role of `double`.
use native.Mathlib.Nat.{
  zero-div, mul-div_left, le-div_iff_mul-le, div-mul-le_self, mul-div_cancel_left, mul-le-mul_left,
  mul-mul-mul_comm,
}
use bttracker.Common.{ℕ, ◌+◌, ◌*◌, ◌/◌, ◌^◌, ◌≤◌, ◌<◌, ◌≡◌, ap, ◌∙◌, arith}
use bttracker.Platform.Floats.{Double, IsIeee, IsDyadic}
use bttracker.Random.{scale}

abbrev one_fixed : ℕ
one_fixed = 2 ^ 32

abbrev pub fixed : Double
fixed = record {
  Carrier = ℕ;
  of_ℕ = λ n. n * one_fixed;
  div = λ a b. a * one_fixed / b;
  mul = λ a b. a * b / one_fixed;
  add = λ a b. a + b;
  trunc = λ a. a / one_fixed;
}

div_mono : (a b k : ℕ) → 0 < k → a ≤ b → a / k ≤ b / k
div_mono a b k h le = (le-div_iff_mul-le h).1 (omega (arith, div-mul-le_self a k))

scaled_pos : (n : ℕ) → 0 < n → 0 < n * one_fixed
scaled_pos n h = omega arith

self_quotient : (n k : ℕ) → 0 < n → n * k / n ≡ k
self_quotient n k h = mul-div_cancel_left k h

product : (m n : ℕ) → m * one_fixed * (n * one_fixed) ≡ m * n * one_fixed * one_fixed
product m n = mul-mul-mul_comm m one_fixed n one_fixed ∙ omega arith

pub fixed-IsIeee : IsIeee fixed
fixed-IsIeee = record {
  le = λ a b. a ≤ b;
  of_ℕ_mono = λ m n h. omega arith;
  div_self = λ n h b. self_quotient (n * one_fixed) one_fixed (scaled_pos n h) ∙ omega arith;
  zero_div = λ n h. zero-div (n * one_fixed);
  div_mono = λ x y n h exact le.
      div_mono (x * one_fixed) (y * one_fixed) (n * one_fixed) (scaled_pos n h) (omega arith);
  mul_exact = λ m n exact exact' b.
      ap (λ (x : ℕ). x / one_fixed) (product m n) ∙ mul-div_left (m * n * one_fixed) (omega arith);
  mul_mono = λ m x y some_m exact le.
      div_mono (m * one_fixed * x) (m * one_fixed * y) one_fixed (omega arith)
        (mul-le-mul_left (m * one_fixed) le);
  add_exact = λ m n b. omega arith;
  add_mono = λ x y n le. omega arith;
  trunc_exact = λ n b. omega arith;
  trunc_mono = λ x y le. div_mono x y one_fixed (omega arith) le;
}

-- The value 0 is taken to the start of the range.
pub scale_zero : (rand_max lo hi : ℕ) → scale fixed rand_max 0 lo hi ≡ lo
unfolding scale
scale_zero rand_max lo hi =
    let nothing : 0 * one_fixed * one_fixed / (rand_max * one_fixed) ≡ 0 =
      zero-div (rand_max * one_fixed) in
    rw nothing (omega arith)

dyadic_product : (k m : ℕ) → k * one_fixed * (m * 2) ≡ k * m * 2 * one_fixed
dyadic_product k m = mul-mul-mul_comm k one_fixed m 2 ∙ omega arith

dyadic_bound :
    (r n m : ℕ) → r * 2 ^ 31 ≤ m * n → r * one_fixed * one_fixed ≤ m * 2 * (n * one_fixed)
dyadic_bound r n m h =
    let e : m * 2 * (n * one_fixed) ≡ m * n * (2 * one_fixed) = mul-mul-mul_comm m 2 n one_fixed in
    omega (arith, e)

-- `m / 2 ^ 31` has 31 binary places.
pub fixed-IsDyadic : IsDyadic fixed fixed-IsIeee
unfolding fixed-IsIeee
fixed-IsDyadic = record {
  dyadic = λ m. m * 2;
  div_dyadic = λ r n m range small exact b h. omega (
    arith,
    div_mono (r * one_fixed * one_fixed) (m * 2 * (n * one_fixed)) (n * one_fixed)
        (scaled_pos n range) (dyadic_bound r n m h),
    mul-div_left (m * 2) (scaled_pos n range),
  );
  mul_dyadic = λ k m small small' b.
      ap (λ (x : ℕ). x / one_fixed) (dyadic_product k m) ∙ mul-div_left (k * m * 2) (omega arith);
  add_dyadic = λ m l b. omega arith;
  trunc_dyadic = λ m b. omega arith;
}
