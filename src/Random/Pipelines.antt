-- ===== src/Random/Pipelines.antt =====
-- Random numbers and the replies of Redis.
use bttracker.Common.{ℕ, zero, suc}
use bttracker.Platform.{Platform}
use bttracker.Platform.Pipelines.{HasPipeline}
use bttracker.Exec.Pipelines.{Leaves, Leaves-pure, Leaves-then, rand-Leaves}
use bttracker.Random.{random_bytes, random_int64, randr}

module _ (p : Platform) (pipe : HasPipeline p) (n : ℕ) where
  pub randr-Leaves : (lo hi : ℕ) → Leaves pipe n n (randr p lo hi)
  unfolding randr
  randr-Leaves lo hi = Leaves-then _ _ (rand-Leaves pipe n) (λ r. Leaves-pure n _)

  random_bytes-Leaves : (count : ℕ) → Leaves pipe n n (random_bytes p count)
  unfolding random_bytes
  random_bytes-Leaves zero = Leaves-pure n _
  random_bytes-Leaves (suc count) =
      Leaves-then _ _ (rand-Leaves pipe n)
        (λ r. Leaves-then _ _ (random_bytes-Leaves count) (λ rest. Leaves-pure n _))

  pub random_int64-Leaves : Leaves pipe n n (random_int64 p)
  unfolding random_int64
  random_int64-Leaves = Leaves-then _ _ (random_bytes-Leaves 8) (λ bytes. Leaves-pure n _)
