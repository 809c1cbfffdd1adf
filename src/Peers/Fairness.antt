-- ===== src/Peers/Fairness.antt =====
-- When the random numbers of the draw stay in their range, and when they leave it.
use bttracker.Common.{ℕ, suc, ◌+◌, ◌-◌, ◌^◌, ◌≤◌, ◌<◌, ◌≡◌, refl, ap, ◌∙◌, arith, List, length}
use bttracker.Memory.{Bytes}
use bttracker.Platform.{Platform, World}
use bttracker.Platform.Floats.{IsIeee, IsDyadic}
use bttracker.Random.Range.{scale_in_range, scale_top}
use bttracker.Random.{scale}
use bttracker.Exec.{fault, out_of_bounds}
use bttracker.Peers.{shuffle}
use bttracker.Peers.Shuffles.{IsFair, shuffle_fault}

-- In an arithmetic with the laws of IEEE 754, for a positive RAND_MAX up to 2 ^ 31 and as long as
-- `rand` gives less than RAND_MAX, the random numbers stay within each range that ends below
-- 2 ^ 22 - 1.
pub randr-IsFair :
    (p : Platform) (ieee : IsIeee p.double)
    → IsDyadic p.double ieee
    → 0 < p.rand_max
    → p.rand_max ≤ 2 ^ 31
    → ((g : p.Rng) → (p.rand g).0 < p.rand_max)
    → IsFair p (2 ^ 22 - 1)
randr-IsFair p ieee dyadics range most below lo hi g ordered few =
    scale_in_range p.double ieee p.rand_max lo hi range (omega arith) ordered (omega arith) dyadics
      (p.rand g).0 most few (below g)

-- In an arithmetic with the laws of IEEE 754, for a positive RAND_MAX below 2 ^ 53: in the loop over
-- the keys, of which there are fewer than 2 ^ 31, a round at any place in which `rand` gives RAND_MAX
-- leaves the array, whatever the keys.
pub shuffle_top :
    (p : Platform)
    → IsIeee p.double
    → 0 < p.rand_max
    → p.rand_max < 2 ^ 53
    → (rounds i : ℕ) (keys : List Bytes) (w : World p) → i < length keys
    → length keys < 2 ^ 31
    → (p.rand w.rng).0 ≡ p.rand_max
    → (shuffle p (suc rounds) i (length keys) keys w).0 ≡ fault out_of_bounds
shuffle_top p ieee range exact rounds i keys w h few top =
    let past : length keys - 1 + 1 ≡ length keys = omega arith in
    shuffle_fault p rounds i (length keys) keys w refl (omega arith) few (
      ap (λ r. scale p.double p.rand_max r i (length keys - 1)) top
      ∙ scale_top p.double ieee p.rand_max i (length keys - 1) range exact (omega arith)
          (omega arith)
      ∙ past)
