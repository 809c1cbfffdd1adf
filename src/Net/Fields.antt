-- ===== src/Net/Fields.antt =====
-- Packets described as sequences of fields, each with its width and its bytes in network order.
use bttracker.Common.{
  ℕ, zero, suc, ◌+◌, ◌≤◌, ◌<◌, ◌^◌, ◌≡◌, refl, sym, ap, ◌∙◌, arith, Option, some, List, [], ◌∷◌,
  ◌++◌, append-nil, append_assoc, length, take, drop, get_elem?, All, length-append, length-drop,
}
use mathlib.Core.Option.{some-injective}
use bttracker.Memory.{Bytes, Endian, load, hton, slice, memcpy, to_be}
use bttracker.Memory.Order.{length-to_be, to_be-IsByte, hton-load, from_be-to_be}
use bttracker.Memory.Blocks.{memcpy-append, slice-append, slice-skip}
use bttracker.Net.{◌>>=◌}

abbrev pub Fields : Type 0
Fields = List (ℕ × Bytes)

-- An `n`-byte integer.
abbrev pub num : ℕ → ℕ → ℕ × Bytes
num n v = (n, to_be n v)

abbrev pub to_packet : Fields → Bytes
to_packet [] = []
to_packet ((n, bs) ∷ fs) = bs ++ to_packet fs

abbrev pub width : Fields → ℕ
width [] = 0
width ((n, bs) ∷ fs) = n + width fs

-- Each field has as many bytes as its width says.
abbrev pub IsSized : Fields → Type 0
IsSized = All (λ f. length f.1 ≡ f.0)

-- One `memcpy` for each field, from offset `off` on.
abbrev pub write_fields : Bytes → ℕ → Fields → Option Bytes
write_fields b off [] = some b
write_fields b off ((n, bs) ∷ fs) = memcpy b off bs >>= λ b'. write_fields b' (off + n) fs

pub length-to_packet : (fs : Fields) → IsSized fs → length (to_packet fs) ≡ width fs
length-to_packet [] h = refl
length-to_packet ((n, bs) ∷ fs) h =
    omega (arith, h.0, length-append bs (to_packet fs), length-to_packet fs h.1)

drop-nil : (n : ℕ) → drop {A = ℕ} n [] ≡ []
drop-nil zero = refl
drop-nil (suc n) = refl

drop-drop : (m n : ℕ) (bs : Bytes) → drop n (drop m bs) ≡ drop (m + n) bs
drop-drop zero n bs = ap (λ k. drop k bs) (omega arith)
drop-drop (suc m) n [] = drop-nil n ∙ sym (drop-nil (suc m + n))
drop-drop (suc m) n (b ∷ bs) =
    let e : suc m + n ≡ suc (m + n) = omega arith in rw e (drop-drop m n bs)

pub drop-length : (bs : Bytes) → drop (length bs) bs ≡ []
drop-length [] = refl
drop-length (b ∷ bs) = drop-length bs

-- Fields that fit behind `pre` are all written, and what follows them stays.
pub write_fields-append :
    (pre rest : Bytes) (off : ℕ) (fs : Fields)
    → IsSized fs
    → off ≡ length pre
    → width fs ≤ length rest
    → write_fields (pre ++ rest) off fs ≡ some (pre ++ (to_packet fs ++ drop (width fs) rest))
write_fields-append pre rest off [] h e k = refl
write_fields-append pre rest off ((n, bs) ∷ fs) h e k =
    rw (memcpy-append pre rest bs off e (omega (arith, h.0))) (
      rw (← append_assoc pre bs (drop (length bs) rest)) (
        write_fields-append (pre ++ bs) (drop (length bs) rest) (off + n) fs h.1
          (omega (arith, h.0, length-append pre bs))
          (omega (arith, h.0, length-drop (length bs) rest))
        ∙ rw (h.0, drop-drop, append_assoc, append_assoc)))

-- A block that the fields fill holds the packet and nothing else.
pub write_fields_whole :
    (b : Bytes) (fs : Fields)
    → IsSized fs
    → length b ≡ width fs
    → write_fields b 0 fs ≡ some (to_packet fs)
write_fields_whole b fs h e =
    write_fields-append [] b 0 fs h refl (omega (arith, e)) ∙ rw (← e, drop-length, append-nil)

pub to_packet-append : (fs gs : Fields) → to_packet (fs ++ gs) ≡ to_packet fs ++ to_packet gs
to_packet-append [] gs = refl
to_packet-append ((n, bs) ∷ fs) gs = rw (to_packet-append fs gs, append_assoc)

-- The bytes of the field that has `k` fields before it.
pub slice-to_packet :
    (fs : Fields) (k n : ℕ) (bs rest : Bytes)
    → IsSized fs
    → get_elem? fs k ≡ some (n, bs)
    → slice (width (take k fs)) n (to_packet fs ++ rest) ≡ bs
slice-to_packet [] k n bs rest h e = cc
slice-to_packet ((m, cs) ∷ fs) zero n bs rest h e =
    let same : ◌≡◌ {A = ℕ × Bytes} (m, cs) (n, bs) = some-injective (m, cs) (n, bs) e in
    rw append_assoc (
      slice-append [] cs (to_packet fs ++ rest) 0 n refl
        (sym (h.0 ∙ ap (λ (f : ℕ × Bytes). f.0) same))
      ∙ ap (λ (f : ℕ × Bytes). f.1) same)
slice-to_packet ((m, cs) ∷ fs) (suc k) n bs rest h e =
    rw (append_assoc, ← h.0)
      (slice-skip cs (to_packet fs ++ rest) (width (take k fs)) n
        ∙ slice-to_packet fs k n bs rest h.1 e)

-- An integer field that is loaded from the buffer and converted has its value.
pub load-to_packet :
    (e : Endian) (fs : Fields) (k n v : ℕ) (rest : Bytes)
    → IsSized fs
    → get_elem? fs k ≡ some (num n v)
    → v < 256 ^ n
    → hton e n (load e (slice (width (take k fs)) n (to_packet fs ++ rest))) ≡ v
load-to_packet e fs k n v rest h at b =
    rw (slice-to_packet fs k n (to_be n v) rest h at)
      (hton-load e n (to_be n v) (length-to_be n v) (to_be-IsByte n v) ∙ from_be-to_be n v b)
