-- ===== src/Peers/Shuffles.antt =====
-- The draw of keys: an exchange and the whole loop only reorder the keys, and with random numbers
-- in their range the loop always ends.
use mathlib.Core.List.{Perm}
use mathlib.Core.List.Perm
use mathlib.Core.Option.{some-injective}
use bttracker.Common.{
  ℕ, zero, suc, ◌+◌, ◌-◌, ◌%◌, ◌^◌, ◌≤◌, ◌<◌, ◌≡◌, refl, ap, ◌∙◌, arith, none, some, List, [], ◌∷◌,
  length, set, get_elem?, length-set, get_elem?_in_range,
}
use bttracker.Memory.{Bytes}
use bttracker.Platform.{Platform, World}
use bttracker.Exec.{Outcome, done, fault, or_fault, out_of_bounds, ◌>>=◌}
use bttracker.Random.{scale}
use bttracker.Random.Range.{randr-done}
use bttracker.Peers.{swap, shuffle}

set_perm {ℓ} :
    {A : Type ℓ} (xs : List A) (i : ℕ) (x y : A)
    → get_elem? xs i ≡ some x
    → Perm (y ∷ xs) (x ∷ set xs i y)
set_perm [] i x y h = cc
set_perm (a ∷ xs) zero x y h = rw (← some-injective a x h) (Perm.swap a y xs)
set_perm (a ∷ xs) (suc i) x y h =
    Perm.trans (Perm.swap a y xs)
      (Perm.trans (Perm.cons a (set_perm xs i x y h)) (Perm.swap x a (set xs i y)))

get_elem?-set {ℓ} :
    {A : Type ℓ} (xs : List A) (i j : ℕ) (x y : A)
    → get_elem? xs i ≡ some x
    → get_elem? xs j ≡ some y
    → get_elem? (set xs i y) j ≡ some y
get_elem?-set [] i j x y h k = cc
get_elem?-set (a ∷ xs) zero zero x y h k = refl
get_elem?-set (a ∷ xs) zero (suc j) x y h k = k
get_elem?-set (a ∷ xs) (suc i) zero x y h k = k
get_elem?-set (a ∷ xs) (suc i) (suc j) x y h k = get_elem?-set xs i j x y h k

get_elem?-length {ℓ} : {A : Type ℓ} (xs : List A) → get_elem? xs (length xs) ≡ none
get_elem?-length [] = refl
get_elem?-length (a ∷ xs) = get_elem?-length xs

-- Two indices within the array are exchanged.
swap-done :
    (xs : List Bytes) (i j : ℕ)
    → i < length xs
    → j < length xs
    → (ys : List Bytes) × (swap xs i j ≡ some ys) × Perm xs ys × (length ys ≡ length xs)
unfolding swap
swap-done xs i j hi hj =
    let (x, at_i) = get_elem?_in_range xs i hi in
    let (y, at_j) = get_elem?_in_range xs j hj in
    let first = set xs i y in
    (
      set first j x,
      rw (at_i, swap) (rw at_j),
      Perm.cons_inv (
          Perm.trans (set_perm xs i x y at_i)
            (set_perm first j y x (get_elem?-set xs i j x y at_i at_j))),
      length-set first j x ∙ length-set xs i y,
    )

-- An index past the end is out of bounds.
pub swap-none : (xs : List Bytes) (i j : ℕ) → get_elem? xs j ≡ none → swap xs i j ≡ none
unfolding swap
swap-none xs i j h = ground arith

module _ (p : Platform) where
  -- The random numbers stay within a range that ends below `most`.
  abbrev pub IsFair : ℕ → Type 0
  IsFair most =
      (lo hi : ℕ) (g : p.Rng)
      → lo ≤ hi
      → hi < most
      → (lo ≤ scale p.double p.rand_max (p.rand g).0 lo hi)
        × (scale p.double p.rand_max (p.rand g).0 lo hi ≤ hi)

  abbrev drawn : ℕ → ℕ → World p → ℕ
  drawn i total w = scale p.double p.rand_max (p.rand w.rng).0 i (total - 1)

  abbrev after_rand : World p → World p
  after_rand w = record w { rng = (p.rand w.rng).1 }

  shuffle-suc :
      (rounds i total : ℕ) (xs : List Bytes) (w : World p)
      → 0 < total
      → total < 2 ^ 31
      → shuffle p (suc rounds) i total xs w
        ≡ (or_fault {p = p} out_of_bounds (swap xs i (drawn i total w)) >>= λ ys.
              shuffle p rounds (i + 1) total ys)
            (after_rand w)
  unfolding shuffle
  shuffle-suc rounds i total xs w h b =
      let last : (total + 2 ^ 64 - 1) % 2 ^ 32 ≡ total - 1 = omega arith in
      rw (last, randr-done p i (total - 1) w)

  shuffle_step :
      (rounds i total : ℕ) (xs ys : List Bytes) (w : World p)
      → 0 < total
      → total < 2 ^ 31
      → swap xs i (drawn i total w) ≡ some ys
      → shuffle p (suc rounds) i total xs w ≡ shuffle p rounds (i + 1) total ys (after_rand w)
  shuffle_step rounds i total xs ys w h b e = shuffle-suc rounds i total xs w h b ∙ rw e

  -- Where the next random number is the number of keys, one past the end of the array, a round of
  -- the loop leaves the array.
  pub shuffle_fault :
      (rounds i total : ℕ) (xs : List Bytes) (w : World p)
      → length xs ≡ total
      → 0 < total
      → total < 2 ^ 31
      → drawn i total w ≡ total
      → (shuffle p (suc rounds) i total xs w).0 ≡ fault out_of_bounds
  shuffle_fault rounds i total xs w size h b past = rw (
    shuffle-suc rounds i total xs w h b,
    swap-none xs i (drawn i total w) (rw (past, ← size) (get_elem?-length xs)),
  )

  -- With random numbers that stay within a range of as many keys, the loop over no more places than
  -- there are keys, of which there are fewer than 2 ^ 31, ends with the keys in some order, and
  -- leaves Redis alone.
  pub shuffle-done :
      (most : ℕ)
      → IsFair most
      → (rounds i total : ℕ) (xs : List Bytes) (w : World p) → length xs ≡ total
      → i + rounds ≤ total
      → total ≤ most
      → total < 2 ^ 31
      → (ys : List Bytes) × ((shuffle p rounds i total xs w).0 ≡ done ys)
        × Perm xs ys
        × ((shuffle p rounds i total xs w).1.redis ≡ w.redis)
  unfolding shuffle
  shuffle-done most fair zero i total xs w size h few b = (xs, refl, Perm.refl xs, refl)
  shuffle-done most fair (suc rounds) i total xs w size h few b =
      let (lo, hi) = fair i (total - 1) w.rng (omega arith) (omega arith) in
      let (ys, exchanged, perm, same) =
        swap-done xs i (drawn i total w) (omega arith) (omega arith) in
      let (zs, ends, more, kept) =
        shuffle-done most fair rounds (i + 1) total ys (after_rand w) (same ∙ size) (omega arith)
          few b in
      let step = shuffle_step rounds i total xs ys w (omega arith) b exchanged in
      (
        zs,
        ap (λ (r : Outcome (List Bytes) × World p). r.0) step ∙ ends,
        Perm.trans perm more,
        ap (λ (r : Outcome (List Bytes) × World p). r.1.redis) step ∙ kept,
      )
