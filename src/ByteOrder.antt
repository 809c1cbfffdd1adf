-- ===== src/ByteOrder.antt =====
-- src/byteorder.h: `ntohll` and `htonll`, which the header defines for two kinds of target. On
-- Apple systems they follow the host's byte order; under glibc both are `bswap_64`.
pub mod Macros
use bttracker.Common.{ℕ}
use bttracker.Memory.{Endian, little, big, bswap, hton}

pub data Target : Type 0 where
  apple glibc : Target

unfoldable pub htonll : Target → Endian → ℕ → ℕ
unfolding bswap hton
htonll apple e v = hton e 8 v
htonll glibc e v = bswap 8 v

unfoldable pub ntohll : Target → Endian → ℕ → ℕ
unfolding bswap hton
ntohll apple e v = hton e 8 v
ntohll glibc e v = bswap 8 v

-- The targets on which the 64-bit macros convert to and from network order.
abbrev pub IsSupported : Target → Endian → Type 0
IsSupported apple e = Unit
IsSupported glibc little = Unit
IsSupported glibc big = ⊥
