-- ===== src/Random.antt =====
-- src/random.c over the platform's `rand` and double arithmetic.
pub mod Range
pub mod Identifiers
pub mod Pipelines
use bttracker.Common.{ℕ, zero, suc, ◌+◌, ◌-◌, ◌/◌, ◌%◌, ◌^◌, bit_and, List, [], ◌∷◌}
use bttracker.Memory.{Bytes, load}
use bttracker.Platform.{Platform}
use bttracker.Platform.Floats.{Double}
use bttracker.Exec.{M, ◌>>=◌, pure, rand}

-- One byte of the result: bits 4 to 11 of a value of `rand`, as a `char`.
pub random_byte : ℕ → ℕ
random_byte r = bit_and r 0x0ff0 / 16 % 256

-- The bytes of the object in memory order, one call of `rand` each.
pub random_bytes : (p : Platform) → ℕ → M p Bytes
unfolding random_byte
random_bytes p zero = pure []
random_bytes p (suc n) = do r ← rand p; rest ← random_bytes p n; pure (random_byte r ∷ rest)

pub random_int64 : (p : Platform) → M p ℕ
unfolding random_bytes
random_int64 p = do bytes ← random_bytes p 8; pure (load p.endian bytes)

-- `(max - min+1) * scaled + min` with `scaled` the quotient of a value of `rand` and RAND_MAX; the
-- integer part is computed in `uint32_t`.
unfoldable pub scale : (d : Double) → (rand_max r lo hi : ℕ) → ℕ
scale d rand_max r lo hi =
    let scaled = d.div (d.of_ℕ r) (d.of_ℕ rand_max) in
    let span = (hi + 2 ^ 32 - lo + 1) % 2 ^ 32 in
    d.trunc (d.add (d.mul (d.of_ℕ span) scaled) (d.of_ℕ lo))

pub randr : (p : Platform) → ℕ → ℕ → M p ℕ
unfolding scale
randr p lo hi = do r ← rand p; pure (scale p.double p.rand_max r lo hi)
