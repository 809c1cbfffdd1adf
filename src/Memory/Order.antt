-- ===== src/Memory/Order.antt =====
-- Byte order: reading back what was written, and the network order of a converted integer.
use mathlib.Core.Path.{subst}
use mathlib.Core.List.{reverse-reverse}
use native.Mathlib.Nat.{pow-suc}
use bttracker.Common.{
  ℕ, zero, suc, ◌+◌, ◌*◌, ◌/◌, ◌%◌, ◌^◌, ◌<◌, ◌≡◌, refl, ap, ◌∙◌, arith, List, [], ◌∷◌, reverse,
  length, All, All-append, length-reverse,
}
use bttracker.Memory.{
  Bytes, IsByte, Endian, little, big, to_le, from_le, to_be, from_be, store, load, bswap, hton,
}

pub length-to_le : (n v : ℕ) → length (to_le n v) ≡ n
unfolding to_le
length-to_le zero v = refl
length-to_le (suc n) v = ap suc (length-to_le n (v / 256))

pub length-to_be : (n v : ℕ) → length (to_be n v) ≡ n
unfolding to_be
length-to_be n v = length-reverse (to_le n v) ∙ length-to_le n v

pub length-store : (e : Endian) (n v : ℕ) → length (store e n v) ≡ n
unfolding store
length-store little n v = length-to_le n v
length-store big n v = length-to_be n v

pub to_le-IsByte : (n v : ℕ) → All IsByte (to_le n v)
unfolding to_le
to_le-IsByte zero v = tt
to_le-IsByte (suc n) v = (omega arith, to_le-IsByte n (v / 256))

pub All-reverse {ℓ κ} : {A : Type ℓ} (P : A → Type κ) (xs : List A) → All P xs → All P (reverse xs)
All-reverse P [] h = h
All-reverse P (x ∷ xs) h =
    rw mathlib.Core.List.reverse-cons
      (All-append P (reverse xs) (x ∷ []) (All-reverse P xs h.1) (h.0, tt))

to_le-from_le : (bs : Bytes) → All IsByte bs → to_le (length bs) (from_le bs) ≡ bs
unfolding to_le from_le
to_le-from_le [] h = refl
to_le-from_le (b ∷ bs) h =
    let low : (b + 256 * from_le bs) % 256 ≡ b = omega arith in
    let rest : (b + 256 * from_le bs) / 256 ≡ from_le bs = omega arith in
    rw (low, rest) (ap (λ t. b ∷ t) (to_le-from_le bs h.1))

from_le-to_le : (n v : ℕ) → v < 256 ^ n → from_le (to_le n v) ≡ v
unfolding to_le from_le
from_le-to_le zero v h = omega arith
from_le-to_le (suc n) v h = omega (arith, from_le-to_le n (v / 256) (omega (arith, pow-suc 256 n)))

pub from_le-lt : (bs : Bytes) → All IsByte bs → from_le bs < 256 ^ length bs
unfolding from_le
from_le-lt [] h = omega arith
from_le-lt (b ∷ bs) h = omega (arith, from_le-lt bs h.1, pow-suc 256 (length bs))

-- `from_le` at a length that is known by an equation.
to_le-from_le_at : (n : ℕ) (bs : Bytes) → length bs ≡ n → All IsByte bs → to_le n (from_le bs) ≡ bs
to_le-from_le_at n bs e h = rw (← e) (to_le-from_le bs h)

-- A field that was converted to network order is, in memory, the big-endian bytes of its value.
pub store-hton : (e : Endian) (n v : ℕ) → store e n (hton e n v) ≡ to_be n v
unfolding store hton to_be
store-hton little n v =
    to_le-from_le_at n (reverse (to_le n v)) (length-to_be n v)
      (All-reverse IsByte (to_le n v) (to_le-IsByte n v))
store-hton big n v = refl

-- What is read from a buffer and converted to host order is the big-endian number of the bytes.
pub hton-load :
    (e : Endian) (n : ℕ) (bs : Bytes)
    → length bs ≡ n
    → All IsByte bs
    → hton e n (load e bs) ≡ from_be bs
unfolding load hton from_be
hton-load little n bs e h = rw (to_le-from_le_at n bs e h)
hton-load big n bs e h = refl

pub from_be-to_be : (n v : ℕ) → v < 256 ^ n → from_be (to_be n v) ≡ v
unfolding from_be to_be
from_be-to_be n v h = rw (reverse-reverse) (from_le-to_le n v h)

pub from_be-lt : (bs : Bytes) → All IsByte bs → from_be bs < 256 ^ length bs
unfolding from_be
from_be-lt bs h = rw (← length-reverse bs) (from_le-lt (reverse bs) (All-reverse IsByte bs h))

pub to_be-IsByte : (n v : ℕ) → All IsByte (to_be n v)
unfolding to_be
to_be-IsByte n v = All-reverse IsByte (to_le n v) (to_le-IsByte n v)

pub store-IsByte : (e : Endian) (n v : ℕ) → All IsByte (store e n v)
unfolding store
store-IsByte little n v = to_le-IsByte n v
store-IsByte big n v = to_be-IsByte n v

-- An object that is read back has the value that was stored.
pub load-store : (e : Endian) (n v : ℕ) → v < 256 ^ n → load e (store e n v) ≡ v
unfolding load store
load-store little n v h = from_le-to_le n v h
load-store big n v h = from_be-to_be n v h

-- Swapping the bytes twice changes nothing.
pub bswap-bswap : (n v : ℕ) → v < 256 ^ n → bswap n (bswap n v) ≡ v
unfolding bswap to_be
bswap-bswap n v h =
    rw
      (
        to_le-from_le_at n (reverse (to_le n v)) (length-to_be n v)
            (All-reverse IsByte (to_le n v) (to_le-IsByte n v)),
        reverse-reverse,
      )
      (from_le-to_le n v h)

pub load-lt : (e : Endian) (bs : Bytes) → All IsByte bs → load e bs < 256 ^ length bs
unfolding load
load-lt little bs h = from_le-lt bs h
load-lt big bs h = from_be-lt bs h

pub bswap-lt : (n v : ℕ) → bswap n v < 256 ^ n
unfolding bswap
bswap-lt n v =
    let swapped = reverse (to_le n v) in
    let size : length swapped ≡ n = length-reverse (to_le n v) ∙ length-to_le n v in
    subst (λ k. from_le swapped < 256 ^ k) size
      (from_le-lt swapped (All-reverse IsByte (to_le n v) (to_le-IsByte n v)))
