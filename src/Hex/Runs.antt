-- ===== src/Hex/Runs.antt =====
-- The conversion ends where there is memory, and leaves Redis alone.
use bttracker.Common.{◌+◌, ◌*◌, ◌≡◌, length}
use bttracker.Memory.{Bytes}
use bttracker.Platform.{Platform, World}
use bttracker.Platform.Laws.{HasMemory}
use bttracker.Exec.{done}
use bttracker.Exec.Runs.{malloc_unchecked-done}
use bttracker.Hex.{hex_digits, bytearray_to_hexarray}

pub bytearray_to_hexarray-done :
    (p : Platform)
    → HasMemory p
    → (bin : Bytes) (w : World p) → (bytearray_to_hexarray p bin w).0 ≡ done (hex_digits bin)
unfolding bytearray_to_hexarray
bytearray_to_hexarray-done p memory bin w =
    rw (malloc_unchecked-done p (length bin * 2 + 1) w memory)
