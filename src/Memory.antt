-- ===== src/Memory.antt =====
-- C objects as bytes in memory, for every file that casts a buffer or copies a field (net.c, data.c,
-- random.c): the object representation of an unsigned integer on a host of either byte order, the
-- values of two's complement integers, and `memcpy` into an object of known size.
pub mod Order
pub mod Blocks
use bttracker.Common.{
  ℕ, zero, suc, ◌+◌, ◌-◌, ◌*◌, ◌/◌, ◌%◌, ◌^◌, ◌<◌, Bool, Option, none, some, List, [], ◌∷◌, ◌++◌,
  reverse, length, take, drop, ltb, leb, if◌then◌else◌,
}

abbrev pub Bytes : Type 0
Bytes = List ℕ

abbrev pub IsByte : ℕ → Type 0
IsByte b = b < 256

-- The byte order of the host.
pub data Endian : Type 0 where
  little big : Endian

-- `to_le n v` is `v` in `n` bytes, the low byte first; `from_le` reads such bytes.
unfoldable pub to_le : ℕ → ℕ → Bytes
to_le zero v = []
to_le (suc n) v = (v % 256) ∷ to_le n (v / 256)

unfoldable pub from_le : Bytes → ℕ
from_le [] = 0
from_le (b ∷ bs) = b + 256 * from_le bs

-- The same in network byte order.
unfoldable pub to_be : ℕ → ℕ → Bytes
unfolding to_le
to_be n v = reverse (to_le n v)

unfoldable pub from_be : Bytes → ℕ
unfolding from_le
from_be bs = from_le (reverse bs)

-- The bytes of an `n`-byte integer object, and the integer that such bytes stand for.
unfoldable pub store : Endian → ℕ → ℕ → Bytes
unfolding to_le to_be
store little n v = to_le n v
store big n v = to_be n v

unfoldable pub load : Endian → Bytes → ℕ
unfolding from_le from_be
load little bs = from_le bs
load big bs = from_be bs

-- Reverses the bytes of an `n`-byte integer (`bswap_64` at 8 bytes).
unfoldable pub bswap : ℕ → ℕ → ℕ
unfolding to_le from_le
bswap n v = from_le (reverse (to_le n v))

-- `htons` and `htonl` at 2 and 4 bytes; `ntohs` and `ntohl` are the same maps.
unfoldable pub hton : Endian → ℕ → ℕ → ℕ
unfolding bswap
hton little n v = bswap n v
hton big n v = v

-- The bytes of `n` from offset `off` on, `*(T *) (buffer + off)`.
unfoldable pub slice : ℕ → ℕ → Bytes → Bytes
slice off n bs = take n (drop off bs)

-- `memcpy(dst + off, src, n)`, where `src` has `n` bytes; `none` is a write out of bounds.
unfoldable pub memcpy : Bytes → ℕ → Bytes → Option Bytes
memcpy dst off src =
    if leb (off + length src) (length dst)
    then some (take off dst ++ (src ++ drop (off + length src) dst))
    else none

-- An `int32_t` is its bit pattern; these are its sign, and its conversion to a 64-bit `size_t`.
unfoldable pub is_negative32 : ℕ → Bool
is_negative32 w = leb (2 ^ 31) w

unfoldable pub size_of_int32 : ℕ → ℕ
unfolding is_negative32
size_of_int32 w = if is_negative32 w then w + 2 ^ 64 - 2 ^ 32 else w
