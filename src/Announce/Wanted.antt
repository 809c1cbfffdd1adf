-- ===== src/Announce/Wanted.antt =====
-- How many peers a response may list.
use bttracker.Common.{ℕ, ◌≤◌, ◌<◌, ◌^◌, ◌≡◌, ◌⊎◌, inl, inr, arith, Bool-cases, ltb}
use bttracker.Announce.{clamp_num_want}

-- For a maximum of 16 bits, either the number that the client asked for is at most the maximum as
-- an unsigned number, and is taken, or it is above the maximum, as the pattern of a negative number
-- is, and the maximum is taken.
pub clamp_num_want_lem :
    (num_want max_numwant : ℕ)
    → max_numwant < 2 ^ 16
    → ((num_want ≤ max_numwant) × (clamp_num_want num_want max_numwant ≡ num_want))
      ⊎ ((max_numwant < num_want) × (clamp_num_want num_want max_numwant ≡ max_numwant))
unfolding clamp_num_want
clamp_num_want_lem num_want max_numwant h = elim (Bool-cases (ltb max_numwant num_want)) [
  | inl above ↦ inr (ground arith, ground arith)
  | inr within ↦ inl (ground arith, ground arith)
]

pub clamp_num_want-le :
    (num_want max_numwant : ℕ) → clamp_num_want num_want max_numwant ≤ max_numwant
unfolding clamp_num_want
clamp_num_want-le num_want max_numwant = ground arith
