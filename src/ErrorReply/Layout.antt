-- ===== src/ErrorReply/Layout.antt =====
-- What an error response holds, and the message that may not be NULL.
use bttracker.Common.{◌∙◌, ◌+◌, ◌≡◌, arith, none, some, ◌++◌, length, drop, length-drop}
use bttracker.Memory.{Bytes}
use bttracker.Data.{Request, action_error}
use bttracker.Net.Fields.{to_packet}
use bttracker.Net.Responses.{error_fields, error_data-fields}
use bttracker.Platform.{Platform, World}
use bttracker.Platform.Laws.{HasMemory}
use bttracker.Exec.{done, fault, null_pointer, malloc_or_exit}
use bttracker.Exec.Runs.{malloc_or_exit-done, redis-malloc_or_exit}
use bttracker.ErrorReply.{send_error}

module _ (p : Platform) (memory : HasMemory p) (request : Request) (w : World p) where
  -- With memory, the response to a request and a text is the error packet followed by 56 bytes
  -- that nothing has written.
  pub send_error_layout :
      (text : Bytes)
      → (junk : Bytes) × (length junk ≡ 56)
        × ((send_error p request (some text) w).0
            ≡ done (record {
              length = 64 + length text;
              data_bytes =
                  to_packet (error_fields (record request { action = action_error }) text) ++ junk;
            }))
  unfolding send_error
  send_error_layout text =
      let w1 = (malloc_or_exit p 16 w).1 in
      let block = memory.block (64 + length text) w1.heap in
      let size : length block ≡ 64 + length text = memory.block_size (64 + length text) w1.heap in
      (
        drop (8 + length text) block,
        omega (arith, length-drop (8 + length text) block, size),
        rw (
          malloc_or_exit-done p 16 w memory,
          malloc_or_exit-done p (64 + length text) w1 memory,
          error_data-fields p.endian block (record request { action = action_error }) text
              (omega (arith, size)),
        ),
      )

  -- Redis is left alone.
  pub redis-send_error : (text : Bytes) → (send_error p request (some text) w).1.redis ≡ w.redis
  unfolding send_error
  redis-send_error text =
      let w1 = (malloc_or_exit p 16 w).1 in
      let block = memory.block (64 + length text) w1.heap in
      let size : length block ≡ 64 + length text = memory.block_size (64 + length text) w1.heap in
      rw
        (
          malloc_or_exit-done p 16 w memory,
          malloc_or_exit-done p (64 + length text) w1 memory,
          error_data-fields p.endian block (record request { action = action_error }) text
              (omega (arith, size)),
        )
        (redis-malloc_or_exit p (64 + length text) w1 ∙ redis-malloc_or_exit p 16 w)

  -- With no message the function reads through NULL.
  pub send_error_null : (send_error p request none w).0 ≡ fault null_pointer
  unfolding send_error
  send_error_null = rw (malloc_or_exit-done p 16 w memory)
