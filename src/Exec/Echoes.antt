-- ===== src/Exec/Echoes.antt =====
-- Responses that begin with the transaction of their request, and with its action or that of an
-- error.
use mathlib.Core.Path.{subst}
use bttracker.Common.{ℕ, ◌⊎◌, Option}
use bttracker.Memory.{Bytes}
use bttracker.Data.{Request, ResponseBuffer, action_error}
use bttracker.Net.Heads.{IfSome, IsHeaded, head}
use bttracker.Platform.{Platform}
use bttracker.Exec.{◌>>=◌, pure, or_fault, out_of_bounds}
use bttracker.Exec.Posts.{Ensures, Ensures-pure, Ensures-or_fault, Ensures-bind}

abbrev pub Begins : Bytes → ResponseBuffer → Type 0
Begins hd resp = IsHeaded hd resp.data_bytes

-- A reply to a request.
abbrev pub IsReplyTo : Request → ResponseBuffer → Type 0
IsReplyTo req resp =
    Begins (head req.action req.transaction_id) resp
    ⊎ Begins (head action_error req.transaction_id) resp

module _ {p : Platform} (hd : Bytes) (o : Option Bytes) (h : IfSome (IsHeaded hd) o) where
  pub IsHeaded-Ensures : Ensures {p = p} (IsHeaded hd) (or_fault out_of_bounds o)
  IsHeaded-Ensures = Ensures-or_fault out_of_bounds o (λ b e. subst (IfSome (IsHeaded hd)) e h)

  pub Begins-Ensures :
      (n : ℕ)
      → Ensures {p = p}
          (Begins hd)
          (or_fault out_of_bounds o >>= λ b. pure (record { length = n; data_bytes = b }))
  Begins-Ensures n =
      Ensures-bind (IsHeaded hd) (or_fault out_of_bounds o) _ IsHeaded-Ensures
        (λ b k. Ensures-pure (record { length = n; data_bytes = b }) k)
