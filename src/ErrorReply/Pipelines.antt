-- ===== src/ErrorReply/Pipelines.antt =====
-- An error response and the replies of Redis.
use bttracker.Common.{ℕ, Option}
use bttracker.Memory.{Bytes}
use bttracker.Data.{Request}
use bttracker.Platform.{Platform}
use bttracker.Platform.Pipelines.{HasPipeline}
use bttracker.Exec.Pipelines.{
  Leaves, Leaves-pure, Leaves-or_fault, Leaves-then, malloc_or_exit-Leaves,
}
use bttracker.ErrorReply.{send_error}

pub send_error-Leaves :
    (p : Platform) (pipe : HasPipeline p) (n : ℕ) (request : Request) (msg : Option Bytes)
    → Leaves pipe n n (send_error p request msg)
unfolding send_error
send_error-Leaves p pipe n request msg =
    Leaves-then _ _ (malloc_or_exit-Leaves pipe n 16) (λ header.
      Leaves-then _ _ (Leaves-or_fault n _ msg) (λ text.
        Leaves-then _ _ (malloc_or_exit-Leaves pipe n _)
          (λ block. Leaves-then _ _ (Leaves-or_fault n _ _) (λ resp. Leaves-pure n _))))
