-- ===== src/ErrorReply.antt =====
-- src/error.c: the error response.
pub mod Layout
pub mod Whole
pub mod Pipelines
pub mod Limits
pub mod Echoes
use bttracker.Common.{ℕ, ◌+◌, Option, none, some, length}
use bttracker.Memory.{Bytes}
use bttracker.Data.{Request, ResponseBuffer, action_error}
use bttracker.Net.{write_error_data}
use bttracker.Platform.{Platform}
use bttracker.Exec.{
  M, ◌>>=◌, ◌>>◌, pure, fail, or_fault, null_pointer, out_of_bounds, malloc_or_exit,
}

-- `strlen(msg) + 1` and the bytes that it counts; `msg` is the text with its zero byte, or NULL.
text_of : {p : Platform} → Option Bytes → M p Bytes
text_of msg = or_fault null_pointer msg

-- The structure of 16 bytes is allocated before its data.
pub send_error : (p : Platform) → Request → Option Bytes → M p ResponseBuffer
unfolding text_of
send_error p request msg = do
  malloc_or_exit p 16
  text ← text_of msg
  block ← malloc_or_exit p (64 + length text)
  let req_copy = record request { action = action_error }
  resp ← or_fault out_of_bounds (write_error_data p.endian block req_copy text)
  pure (record { length = 64 + length text; data_bytes = resp })
