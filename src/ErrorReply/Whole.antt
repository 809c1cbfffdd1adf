-- ===== src/ErrorReply/Whole.antt =====
-- The bytes and the length of an error response.
use mathlib.Core.Path.{subst}
use bttracker.Common.{
  ◌+◌, ◌≡◌, arith, ◌&&◌, Bool, true, [], ◌∷◌, leb, leb→le, both, Option, none, some, length, All,
}
use bttracker.Memory.{Bytes, IsByte}
use bttracker.Data.{Request, action_error}
use bttracker.Net.Sizes.{HasBytes-error}
use bttracker.Platform.{Platform}
use bttracker.Platform.Laws.{HasBlocks}
use bttracker.Exec.{or_fault, null_pointer, malloc_or_exit}
use bttracker.Exec.Posts.{
  Ensures, Ensures-bind, Ensures-or_fault, Ensures-then, IsBlock, malloc_or_exit-Ensures,
}
use bttracker.Exec.Responses.{IsPacket, respond-Ensures}
use bttracker.ErrorReply.{send_error}

-- The text is made of bytes, if there is one.
abbrev pub IsTextIfAny : Option Bytes → Type 0
IsTextIfAny none = Unit
IsTextIfAny (some text) = All IsByte text

unfoldable pub are_bytes : Bytes → Bool
are_bytes [] = true
are_bytes (b ∷ bs) = leb b 255 && are_bytes bs

-- A text that is written in the source is checked by a test.
pub are_bytes-All : (text : Bytes) → are_bytes text ≡ true → All IsByte text
unfolding are_bytes
are_bytes-All [] e = tt
are_bytes-All (b ∷ bs) e =
    let (small, rest) = both (leb b 255) (are_bytes bs) e in
    (omega (arith, leb→le b 255 small), are_bytes-All bs rest)

pub send_error-Ensures :
    (p : Platform)
    → HasBlocks p
    → (request : Request) (msg : Option Bytes) → IsTextIfAny msg
    → Ensures IsPacket (send_error p request msg)
unfolding send_error
send_error-Ensures p blocks request msg h = Ensures-then (malloc_or_exit p 16) _ (λ header.
    Ensures-bind (All IsByte) (or_fault null_pointer msg) _
      (Ensures-or_fault null_pointer msg (λ text e. subst IsTextIfAny e h))
      (λ text bytes.
        let n = 64 + length text in
        Ensures-bind (IsBlock p blocks n) (malloc_or_exit p n) _ (malloc_or_exit-Ensures p blocks n)
          (λ block size. respond-Ensures n _ (
            HasBytes-error n p.endian block (record request { action = action_error }) text size
              bytes))))
