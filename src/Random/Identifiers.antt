-- ===== src/Random/Identifiers.antt =====
-- `bt_random_int64`: it always returns, and its result is a 64-bit number.
use bttracker.Common.{ℕ, zero, suc, ◌^◌, ◌<◌, ◌≡◌, refl, ap, arith, List, [], ◌∷◌, length, All}
use bttracker.Memory.{Bytes, IsByte, load}
use bttracker.Memory.Order.{load-lt}
use bttracker.Platform.{Platform, World}
use bttracker.Exec.{done, rand}
use bttracker.Random.{random_byte, random_bytes, random_int64}

module _ (p : Platform) where
  -- The values of `rand` that `n` calls give.
  abbrev pub rands : ℕ → p.Rng → List ℕ
  rands zero g = []
  rands (suc n) g = (p.rand g).0 ∷ rands n (p.rand g).1

  abbrev pub bytes_of : List ℕ → Bytes
  bytes_of [] = []
  bytes_of (r ∷ rs) = random_byte r ∷ bytes_of rs

  bytes_of-IsByte : (rs : List ℕ) → All IsByte (bytes_of rs)
  unfolding random_byte
  bytes_of-IsByte [] = tt
  bytes_of-IsByte (r ∷ rs) = (omega arith, bytes_of-IsByte rs)

  random_bytes-done :
      (n : ℕ) (w : World p)
      → ((random_bytes p n w).0 ≡ done (bytes_of (rands n w.rng)))
        × ((random_bytes p n w).1.redis ≡ w.redis)
        × (length (bytes_of (rands n w.rng)) ≡ n)
  unfolding random_bytes rand
  random_bytes-done zero w = (refl, refl, refl)
  random_bytes-done (suc n) w =
      let (bytes, redis, count) = random_bytes-done n (record w { rng = (p.rand w.rng).1 }) in
      (rw bytes, rw bytes redis, ap suc count)

  -- The identifier that eight calls of `rand` from state `g` make.
  abbrev pub identifier : p.Rng → ℕ
  identifier g = load p.endian (bytes_of (rands 8 g))

  -- The function ends, its result is made of the next eight values of `rand`, and Redis is left
  -- alone.
  pub random_int64-done :
      (w : World p)
      → ((random_int64 p w).0 ≡ done (identifier w.rng)) × ((random_int64 p w).1.redis ≡ w.redis)
  unfolding random_int64
  random_int64-done w =
      let (bytes, redis, count) = random_bytes-done 8 w in (rw bytes, rw bytes redis)

  pub identifier-lt : (g : p.Rng) → identifier g < 2 ^ 64
  identifier-lt g = load-lt p.endian (bytes_of (rands 8 g)) (bytes_of-IsByte (rands 8 g))
