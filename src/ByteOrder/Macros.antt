-- ===== src/ByteOrder/Macros.antt =====
-- The 64-bit macros against the conversion by the host's byte order.
use mathlib.Core.Logic.{◌↔◌}
use bttracker.Common.{ℕ, ◌^◌, ◌<◌, ◌≡◌, refl, arith}
use bttracker.Memory.{Endian, little, big, bswap, hton}
use bttracker.Memory.Order.{bswap-bswap}
use bttracker.ByteOrder.{Target, apple, glibc, htonll, ntohll, IsSupported}

pub htonll-eq-hton :
    (t : Target) (e : Endian) → IsSupported t e → (v : ℕ) → htonll t e v ≡ hton e 8 v
unfolding htonll
htonll-eq-hton apple e h v = refl
htonll-eq-hton glibc little h v = refl
htonll-eq-hton glibc big h v = absurd h

pub ntohll-eq-hton :
    (t : Target) (e : Endian) → IsSupported t e → (v : ℕ) → ntohll t e v ≡ hton e 8 v
unfolding ntohll
ntohll-eq-hton apple e h v = refl
ntohll-eq-hton glibc little h v = refl
ntohll-eq-hton glibc big h v = absurd h

-- The two macros undo one another on every 64-bit number, on every target.
pub ntohll-htonll : (t : Target) (e : Endian) (v : ℕ) → v < 2 ^ 64 → ntohll t e (htonll t e v) ≡ v
unfolding htonll ntohll
ntohll-htonll apple little v h = bswap-bswap 8 v h
ntohll-htonll apple big v h = refl
ntohll-htonll glibc e v h = bswap-bswap 8 v h

swap_one : bswap 8 1 ≡ 2 ^ 56
unfolding bswap
swap_one = refl

IsSupported-of_eq : (t : Target) (e : Endian) → htonll t e 1 ≡ hton e 8 1 → IsSupported t e
unfolding htonll
IsSupported-of_eq apple e h = tt
IsSupported-of_eq glibc little h = tt
IsSupported-of_eq glibc big h = absurd (omega (arith, h, swap_one))

-- The macro converts every 64-bit number as the host's byte order requires exactly on the targets
-- that `IsSupported` names: all but a big-endian host under glibc.
pub htonll_iff :
    (t : Target) (e : Endian) → ((v : ℕ) → v < 2 ^ 64 → htonll t e v ≡ hton e 8 v) ↔ IsSupported t e
htonll_iff t e =
    (λ all. IsSupported-of_eq t e (all 1 (omega arith)), λ ok v h. htonll-eq-hton t e ok v)
