-- ===== src/Hex/Pipelines.antt =====
-- The text of a hash and the replies of Redis.
use bttracker.Common.{ℕ}
use bttracker.Memory.{Bytes}
use bttracker.Platform.{Platform}
use bttracker.Platform.Pipelines.{HasPipeline}
use bttracker.Exec.Pipelines.{Leaves, Leaves-pure, Leaves-then, malloc_unchecked-Leaves}
use bttracker.Hex.{bytearray_to_hexarray}

pub bytearray_to_hexarray-Leaves :
    (p : Platform) (pipe : HasPipeline p) (n : ℕ) (bin : Bytes)
    → Leaves pipe n n (bytearray_to_hexarray p bin)
unfolding bytearray_to_hexarray
bytearray_to_hexarray-Leaves p pipe n bin =
    Leaves-then _ _ (malloc_unchecked-Leaves pipe n _) (λ block. Leaves-pure n _)
