-- ===== src/Exec/Runs.antt =====
-- The primitive actions: their results where there is memory, and what they leave alone.
use bttracker.Common.{ℕ, ◌≡◌, arith, none}
use bttracker.Data.{malloc_error}
use bttracker.Platform.{Platform, World}
use bttracker.Platform.Laws.{HasMemory}
use bttracker.Exec.{done, exit, fault, null_pointer, malloc_or_exit, malloc_unchecked}

module _ (p : Platform) (n : ℕ) (w : World p) where
  pub redis-malloc_or_exit : (malloc_or_exit p n w).1.redis ≡ w.redis
  unfolding malloc_or_exit
  redis-malloc_or_exit = ground arith

  pub redis-malloc_unchecked : (malloc_unchecked p n w).1.redis ≡ w.redis
  unfolding malloc_unchecked
  redis-malloc_unchecked = ground arith

  pub rng-malloc_unchecked : (malloc_unchecked p n w).1.rng ≡ w.rng
  unfolding malloc_unchecked
  rng-malloc_unchecked = ground arith

  pub malloc_or_exit_null :
      (p.malloc n w.heap).0 ≡ none → (malloc_or_exit p n w).0 ≡ exit malloc_error
  unfolding malloc_or_exit
  malloc_or_exit_null h = ground arith

  pub malloc_unchecked_null :
      (p.malloc n w.heap).0 ≡ none → (malloc_unchecked p n w).0 ≡ fault null_pointer
  unfolding malloc_unchecked
  malloc_unchecked_null h = ground arith

  module _ (memory : HasMemory p) where
    pub malloc_or_exit-done : (malloc_or_exit p n w).0 ≡ done (memory.block n w.heap)
    unfolding malloc_or_exit
    malloc_or_exit-done = ground (arith, memory.malloc_block n w.heap)

    pub malloc_unchecked-done : (malloc_unchecked p n w).0 ≡ done (memory.block n w.heap)
    unfolding malloc_unchecked
    malloc_unchecked-done = ground (arith, memory.malloc_block n w.heap)
