-- ===== src/Random/Range.antt =====
-- The range of the random numbers.
use bttracker.Common.{ℕ, ◌+◌, ◌-◌, ◌*◌, ◌/◌, ◌%◌, ◌^◌, ◌≤◌, ◌<◌, ◌≡◌, refl, ap, ◌∙◌, arith}
use mathlib.Core.Path.{subst}
use bttracker.Platform.{Platform, World}
use bttracker.Platform.Floats.{Double, IsIeee, IsDyadic}
use bttracker.Exec.{done, rand}
use bttracker.Random.{scale, randr}

-- One call of `rand`, and no other effect.
pub randr-done :
    (p : Platform) (lo hi : ℕ) (w : World p)
    → randr p lo hi w ≡ (
      done (scale p.double p.rand_max (p.rand w.rng).0 lo hi),
      record w { rng = (p.rand w.rng).1 },
    )
unfolding randr rand
randr-done p lo hi w = refl

module _ (d : Double) (ieee : IsIeee d) (rand_max lo hi : ℕ) (range : 0 < rand_max)
    (exact : rand_max < 2 ^ 53) (ordered : lo ≤ hi) (small : hi < 2 ^ 32 - 1) where
  span_eq : (hi + 2 ^ 32 - lo + 1) % 2 ^ 32 ≡ hi - lo + 1
  span_eq = omega arith

  -- The value that the result truncates, at a quotient `s`.
  abbrev spread : d.Carrier → d.Carrier
  spread s = d.add (d.mul (d.of_ℕ (hi - lo + 1)) s) (d.of_ℕ lo)

  spread-of_ℕ : (k : ℕ) → k ≤ 1 → spread (d.of_ℕ k) ≡ d.of_ℕ ((hi - lo + 1) * k + lo)
  spread-of_ℕ k h =
      let product : (hi - lo + 1) * k ≤ (hi - lo + 1) * 1 = grind arith in
      ap (λ x. d.add x (d.of_ℕ lo))
        (ieee.mul_exact (hi - lo + 1) k (omega arith) (omega arith) (omega arith))
      ∙ ieee.add_exact ((hi - lo + 1) * k) lo (omega arith)

  trunc-spread : (k : ℕ) → k ≤ 1 → d.trunc (spread (d.of_ℕ k)) ≡ (hi - lo + 1) * k + lo
  trunc-spread k h =
      let product : (hi - lo + 1) * k ≤ (hi - lo + 1) * 1 = grind arith in
      ap d.trunc (spread-of_ℕ k h) ∙ ieee.trunc_exact ((hi - lo + 1) * k + lo) (omega arith)

  spread-le : (x y : d.Carrier) → ieee.le x y → d.trunc (spread x) ≤ d.trunc (spread y)
  spread-le x y h =
      ieee.trunc_mono (spread x) (spread y)
        (ieee.add_mono _ _ lo (ieee.mul_mono (hi - lo + 1) x y (omega arith) (omega arith) h))

  scale-spread :
      (r : ℕ) → scale d rand_max r lo hi ≡ d.trunc (spread (d.div (d.of_ℕ r) (d.of_ℕ rand_max)))
  unfolding scale
  scale-spread r =
      ap
        (λ (n : ℕ).
          d.trunc (d.add (d.mul (d.of_ℕ n) (d.div (d.of_ℕ r) (d.of_ℕ rand_max))) (d.of_ℕ lo)))
        span_eq

  -- In an arithmetic with the laws of IEEE 754, for a positive RAND_MAX below 2 ^ 53 and a range
  -- that ends below 2 ^ 32 - 1, the value RAND_MAX of `rand` gives one more than the range's end.
  pub scale_top : scale d rand_max rand_max lo hi ≡ hi + 1
  scale_top =
      let whole : (hi - lo + 1) * 1 + lo ≡ hi + 1 = omega arith in
      scale-spread rand_max
      ∙ ap (λ x. d.trunc (spread x)) (ieee.div_self rand_max range exact)
      ∙ trunc-spread 1 (omega arith)
      ∙ whole

  -- In an arithmetic with the laws of IEEE 754, for a positive RAND_MAX below 2 ^ 53 and a range
  -- that ends below 2 ^ 32 - 1, a value of `rand` up to RAND_MAX gives a result between the
  -- range's start and one more than its end.
  pub scale_bounds :
      (r : ℕ) → r ≤ rand_max → (lo ≤ scale d rand_max r lo hi) × (scale d rand_max r lo hi ≤ hi + 1)
  scale_bounds r h =
      let s = d.div (d.of_ℕ r) (d.of_ℕ rand_max) in
      let low : ieee.le (d.of_ℕ 0) s =
        subst (λ z. ieee.le z s) (ieee.zero_div rand_max range)
          (ieee.div_mono (d.of_ℕ 0) (d.of_ℕ r) rand_max range exact
            (ieee.of_ℕ_mono 0 r (omega arith))) in
      let high : ieee.le s (d.of_ℕ 1) =
        subst (λ z. ieee.le s z) (ieee.div_self rand_max range exact)
          (ieee.div_mono (d.of_ℕ r) (d.of_ℕ rand_max) rand_max range exact
            (ieee.of_ℕ_mono r rand_max h)) in
      rw (scale-spread r) (
        omega (arith, spread-le (d.of_ℕ 0) s low, trunc-spread 0 (omega arith)),
        omega (arith, spread-le s (d.of_ℕ 1) high, trunc-spread 1 (omega arith)),
      )

  -- The greatest value of the loop's draw, where `rand` gives less than RAND_MAX.
  scale_below :
      (dyadics : IsDyadic d ieee) (r : ℕ)
      → rand_max ≤ 2 ^ 31
      → hi < 2 ^ 22 - 1
      → r < rand_max
      → scale d rand_max r lo hi ≤ hi
  scale_below dyadics r most few h =
      let n = hi - lo + 1 in
      let m = 2 ^ 31 - 1 in
      let top : d.trunc (spread (dyadics.dyadic m)) ≡ (n * m + lo * 2 ^ 31) / 2 ^ 31 =
        ap (λ x. d.trunc (d.add x (d.of_ℕ lo)))
          (dyadics.mul_dyadic n m (omega arith) (omega arith) (omega arith))
        ∙ ap d.trunc (dyadics.add_dyadic (n * m) lo (omega arith))
        ∙ dyadics.trunc_dyadic (n * m + lo * 2 ^ 31) (omega arith) in
      rw (scale-spread r) (
        omega (
          arith,
          top,
          spread-le (d.div (d.of_ℕ r) (d.of_ℕ rand_max)) (dyadics.dyadic m) (
              dyadics.div_dyadic r rand_max m range (omega arith) exact (omega arith)
                (omega arith)),
        ))

  -- In an arithmetic with the laws of IEEE 754, for a positive RAND_MAX up to 2 ^ 31 and a range
  -- that ends below 2 ^ 22 - 1, a value of `rand` below RAND_MAX gives a result in the range.
  pub scale_in_range :
      (dyadics : IsDyadic d ieee) (r : ℕ)
      → rand_max ≤ 2 ^ 31
      → hi < 2 ^ 22 - 1
      → r < rand_max
      → (lo ≤ scale d rand_max r lo hi) × (scale d rand_max r lo hi ≤ hi)
  scale_in_range dyadics r most few h =
      ((scale_bounds r (omega arith)).0, scale_below dyadics r most few h)
