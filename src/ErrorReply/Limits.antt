-- ===== src/ErrorReply/Limits.antt =====
-- How long an error response is.
use mathlib.Core.Path.{subst}
use bttracker.Common.{ℕ, ◌+◌, ◌≤◌, arith, Option, none, some, length}
use bttracker.Memory.{Bytes}
use bttracker.Data.{Request, action_error}
use bttracker.Net.{write_error_data}
use bttracker.Platform.{Platform}
use bttracker.Exec.{or_fault, out_of_bounds, null_pointer, malloc_or_exit}
use bttracker.Exec.Posts.{Ensures, Ensures-pure, Ensures-bind, Ensures-or_fault, Ensures-then}
use bttracker.ErrorReply.{send_error}

-- The text has at most `n` bytes, if there is one.
abbrev pub IsShort : ℕ → Option Bytes → Type 0
IsShort n none = Unit
IsShort n (some text) = length text ≤ n

pub send_error-Limited :
    (p : Platform) (n : ℕ) (request : Request) (msg : Option Bytes)
    → IsShort n msg
    → Ensures (λ resp. resp.length ≤ 64 + n) (send_error p request msg)
unfolding send_error
send_error-Limited p n request msg h = Ensures-then (malloc_or_exit p 16) _ (λ header.
    Ensures-bind (λ text. length text ≤ n) (or_fault null_pointer msg) _
      (Ensures-or_fault null_pointer msg (λ text e. subst (IsShort n) e h))
      (λ text short. Ensures-then (malloc_or_exit p (64 + length text)) _ (λ block.
        Ensures-then
          (or_fault out_of_bounds
            (write_error_data p.endian block (record request { action = action_error }) text))
          _
          (λ resp.
            let within : 64 + length text ≤ 64 + n = omega arith in
            Ensures-pure (record { length = 64 + length text; data_bytes = resp }) within))))
