-- ===== src/ErrorReply/Echoes.antt =====
-- What an error response begins with.
use bttracker.Common.{◌+◌, Option, length}
use bttracker.Memory.{Bytes}
use bttracker.Data.{Request, action_error}
use bttracker.Net.Heads.{head, error-IsHeaded}
use bttracker.Platform.{Platform}
use bttracker.Exec.{or_fault, null_pointer, malloc_or_exit}
use bttracker.Exec.Posts.{Ensures, Ensures-then}
use bttracker.Exec.Echoes.{Begins, Begins-Ensures}
use bttracker.ErrorReply.{send_error}

pub send_error-Begins :
    (p : Platform) (request : Request) (msg : Option Bytes)
    → Ensures (Begins (head action_error request.transaction_id)) (send_error p request msg)
unfolding send_error
send_error-Begins p request msg = Ensures-then (malloc_or_exit p 16) _ (λ header.
    Ensures-then (or_fault null_pointer msg) _ (λ text.
      Ensures-then (malloc_or_exit p (64 + length text)) _ (λ block.
        Begins-Ensures _ _
          (error-IsHeaded p.endian block (record request { action = action_error }) text) _)))
