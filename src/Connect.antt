-- ===== src/Connect.antt =====
-- src/connect.c: the answer to a connection request.
pub mod Layout
pub mod Whole
pub mod Returns
pub mod Pipelines
pub mod Limits
pub mod Echoes
use bttracker.Common.{ℕ, Bool, Option, none, some, if◌then◌else◌}
use bttracker.Data.{Config, Request, ConnectionResponse, ResponseBuffer}
use bttracker.Net.{write_connection_data}
use bttracker.Platform.{Platform}
use bttracker.Exec.{M, ◌>>=◌, ◌>>◌, pure, or_fault, out_of_bounds, malloc_or_exit}
use bttracker.Random.{random_int64}
use bttracker.Redis.{insert_connection}
use bttracker.Handshake.{valid_request}

module _ (p : Platform) where
  pub serialize_connection_response : ConnectionResponse → M p ResponseBuffer
  serialize_connection_response response_data = do
    malloc_or_exit p 16
    block ← malloc_or_exit p 16
    resp ← or_fault out_of_bounds (write_connection_data p.target p.endian block response_data)
    pure (record { length = 16; data_bytes = resp })

  -- `none` is NULL: no response.
  pub handle_connection : Request → Config → ℕ → M p (Option ResponseBuffer)
  handle_connection request config buflen = do
    valid ← valid_request p config request buflen
    if valid
        then (do
          connection_id ← random_int64 p
          insert_connection p config connection_id
          resp ← serialize_connection_response (record {
            action = request.action;
            transaction_id = request.transaction_id;
            connection_id = connection_id;
          })
          pure (some resp))
        else pure none
