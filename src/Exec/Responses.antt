-- ===== src/Exec/Responses.antt =====
-- Responses that are arrays of as many bytes as their length says, so that `sendto` reads no byte
-- beyond the block.
use mathlib.Core.Path.{subst}
use bttracker.Common.{ℕ, Option, none, some}
use bttracker.Memory.{Bytes}
use bttracker.Memory.Blocks.{IsArray}
use bttracker.Data.{ResponseBuffer}
use bttracker.Net.Sizes.{HasBytes}
use bttracker.Platform.{Platform}
use bttracker.Exec.{M, ◌>>=◌, pure, or_fault, out_of_bounds}
use bttracker.Exec.Posts.{Ensures, Ensures-pure, Ensures-or_fault, Ensures-bind}

abbrev pub IsPacket : ResponseBuffer → Type 0
IsPacket resp = IsArray resp.length resp.data_bytes

abbrev pub IfAny : (ResponseBuffer → Type 0) → Option ResponseBuffer → Type 0
IfAny P none = Unit
IfAny P (some resp) = P resp

pub IfAny-map :
    (P Q : ResponseBuffer → Type 0)
    → ((r : ResponseBuffer) → P r → Q r)
    → (o : Option ResponseBuffer) → IfAny P o
    → IfAny Q o
IfAny-map P Q f none h = tt
IfAny-map P Q f (some r) h = f r h

module _ {p : Platform} (n : ℕ) (o : Option Bytes) (written : HasBytes n o) where
  pub written-Ensures : Ensures {p = p} (IsArray n) (or_fault out_of_bounds o)
  written-Ensures = Ensures-or_fault out_of_bounds o (λ b e. subst (HasBytes n) e written)

  -- The last writer of a block, and the response that is made of it.
  pub respond-Ensures :
      Ensures {p = p} IsPacket
        (or_fault out_of_bounds o >>= λ b. pure (record { length = n; data_bytes = b }))
  respond-Ensures =
      Ensures-bind (IsArray n) (or_fault out_of_bounds o) _ written-Ensures
        (λ b h. Ensures-pure _ h)

pub some-Ensures :
    {p : Platform} (P : ResponseBuffer → Type 0) (m : M p ResponseBuffer)
    → Ensures P m
    → Ensures (IfAny P) (m >>= λ resp. pure (some resp))
some-Ensures P m h = Ensures-bind P m _ h (λ resp k. Ensures-pure (some resp) k)
