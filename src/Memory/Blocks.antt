-- ===== src/Memory/Blocks.antt =====
-- Blocks of bytes: what `memcpy` leaves behind, and what a slice of a known layout holds.
use bttracker.Common.{
  ℕ, zero, suc, ◌+◌, ◌≤◌, ◌<◌, ◌≡◌, refl, arith, none, some, [], ◌∷◌, ◌++◌, length, take, drop,
  le→leb, lt→not-leb, All, All-take, All-drop, length-append, length-take, length-drop, take-append,
  drop-append, leb, leb→le, Bool-cases, inl, inr, All-append, Option,
}
use bttracker.Memory.{Bytes, IsByte, slice, memcpy}

-- An array of `n` bytes.
abbrev pub IsArray : ℕ → Bytes → Type 0
IsArray n b = (length b ≡ n) × All IsByte b

abbrev pub IsArrayIfAny : ℕ → Option Bytes → Type 0
IsArrayIfAny n none = Unit
IsArrayIfAny n (some b) = IsArray n b

drop-append_more : (pre rest : Bytes) (n : ℕ) → drop (length pre + n) (pre ++ rest) ≡ drop n rest
drop-append_more [] rest n = let e : 0 + n ≡ n = omega arith in rw e
drop-append_more (x ∷ pre) rest n =
    let e : suc (length pre) + n ≡ suc (length pre + n) = omega arith in
    rw e (drop-append_more pre rest n)

-- A write behind `pre` that fits keeps `pre`, puts `src` there, and keeps what follows.
pub memcpy-append :
    (pre rest src : Bytes) (off : ℕ)
    → off ≡ length pre
    → length src ≤ length rest
    → memcpy (pre ++ rest) off src ≡ some (pre ++ (src ++ drop (length src) rest))
unfolding memcpy
memcpy-append pre rest src off e h = rw (
  e,
  le→leb (length pre + length src) (length (pre ++ rest)) (omega (arith, length-append pre rest)),
  take-append,
  drop-append_more,
)

-- A write that does not fit is out of bounds.
pub memcpy-none :
    (dst src : Bytes) (off : ℕ) → length dst < off + length src → memcpy dst off src ≡ none
unfolding memcpy
memcpy-none dst src off h = rw (lt→not-leb (off + length src) (length dst) h)

length-take_most : (n : ℕ) (bs : Bytes) → length (take n bs) ≤ n
length-take_most zero bs = omega arith
length-take_most (suc n) [] = omega arith
length-take_most (suc n) (b ∷ bs) = omega (arith, length-take_most n bs)

length-slice_most : (off n : ℕ) (bs : Bytes) → length (slice off n bs) ≤ n
unfolding slice
length-slice_most off n bs = length-take_most n (drop off bs)

-- A copy of a slice into the front of an object that has room for it.
pub memcpy-slice :
    (dst bs : Bytes) (off n : ℕ)
    → n ≤ length dst
    → (b : Bytes) × (memcpy dst 0 (slice off n bs) ≡ some b)
memcpy-slice dst bs off n h =
    (_, memcpy-append [] dst (slice off n bs) 0 refl (omega (arith, length-slice_most off n bs)))

-- A slice that starts behind `pre`.
pub slice-skip :
    (pre rest : Bytes) (off n : ℕ) → slice (length pre + off) n (pre ++ rest) ≡ slice off n rest
unfolding slice
slice-skip pre rest off n = rw (drop-append_more pre rest off)

pub slice-append :
    (pre mid post : Bytes) (off n : ℕ)
    → off ≡ length pre
    → n ≡ length mid
    → slice off n (pre ++ (mid ++ post)) ≡ mid
unfolding slice
slice-append pre mid post off n e k = rw (e, k, drop-append, take-append)

pub length-slice : (off n : ℕ) (bs : Bytes) → off + n ≤ length bs → length (slice off n bs) ≡ n
unfolding slice
length-slice off n bs h = length-take n (drop off bs) (omega (arith, length-drop off bs))

pub slice-IsByte : (off n : ℕ) (bs : Bytes) → All IsByte bs → All IsByte (slice off n bs)
unfolding slice
slice-IsByte off n bs h = All-take IsByte n (drop off bs) (All-drop IsByte off bs h)

-- What a write leaves behind is an array of the same size.
pub memcpy-IsArray :
    (n : ℕ) (dst : Bytes) (off : ℕ) (src : Bytes)
    → IsArray n dst
    → All IsByte src
    → IsArrayIfAny n (memcpy dst off src)
unfolding memcpy
memcpy-IsArray n dst off src (size, bytes) h =
    elim (Bool-cases (leb (off + length src) (length dst))) [
      | inl fits ↦
          let within = leb→le (off + length src) (length dst) fits in
          rw fits (
            omega
                (arith, length-take off dst, length-append {0}, length-drop (off + length src) dst),
            All-append IsByte (take off dst) _ (All-take IsByte off dst bytes)
                (All-append IsByte src _ h (All-drop IsByte (off + length src) dst bytes)),
          )
      | inr beyond ↦ rw beyond tt
    ]
