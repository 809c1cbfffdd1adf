-- ===== src/Connect/Layout.antt =====
-- The answer to a connection request, and the identifier that Redis is told to keep.
use bttracker.Common.{ℕ, ◌≤◌, ◌≡◌, ap, ◌∙◌, some}
use bttracker.Memory.{Bytes}
use bttracker.ByteOrder.{IsSupported}
use bttracker.Data.{Config, Request, ConnectionResponse, action_connect, protocol_id}
use bttracker.Net.Fields.{to_packet}
use bttracker.Net.Responses.{connection_fields, connection_data-fields}
use bttracker.Platform.{Platform, World}
use bttracker.Platform.Laws.{HasMemory}
use bttracker.Exec.{done, malloc_or_exit}
use bttracker.Exec.Runs.{malloc_or_exit-done, redis-malloc_or_exit}
use bttracker.Random.{random_int64}
use bttracker.Random.Identifiers.{identifier, random_int64-done}
use bttracker.Redis.Effects.{after, set_connection, insert_connection-done}
use bttracker.Handshake.Accepts.{valid_connect}
use bttracker.Connect.{serialize_connection_response, handle_connection}

module _ (p : Platform) (memory : HasMemory p) (ok : IsSupported p.target p.endian) where
  pub serialize-done :
      (resp : ConnectionResponse) (w : World p)
      → ((serialize_connection_response p resp w).0
          ≡ done (record { length = 16; data_bytes = to_packet (connection_fields resp) }))
        × ((serialize_connection_response p resp w).1.redis ≡ w.redis)
  unfolding serialize_connection_response
  serialize-done resp w =
      let w1 = (malloc_or_exit p 16 w).1 in
      let packet =
        connection_data-fields p.target p.endian (memory.block 16 w1.heap) resp ok
          (memory.block_size 16 w1.heap) in
      (
        rw (malloc_or_exit-done p 16 w memory, malloc_or_exit-done p 16 w1 memory, packet),
        rw (malloc_or_exit-done p 16 w memory, malloc_or_exit-done p 16 w1 memory, packet)
            (redis-malloc_or_exit p 16 w1 ∙ redis-malloc_or_exit p 16 w),
      )

  abbrev pub connection_response : Request → World p → ConnectionResponse
  connection_response request w = record {
    action = request.action;
    transaction_id = request.transaction_id;
    connection_id = identifier p w.rng;
  }

  -- With memory, a supported byte order and a key prefix, a connect that has the protocol's
  -- number and 16 bytes at least is answered with 16 bytes, the action and the transaction of the
  -- request and a new identifier, under which Redis is told to keep an entry for 120 seconds; no
  -- other command is sent.
  pub handle_connection-done :
      (config : Config) (prefix : Bytes) (request : Request) (buflen : ℕ) (w : World p)
      (has_prefix : config.redis_key_prefix ≡ some prefix)
      → request.action ≡ action_connect
      → request.connection_id ≡ protocol_id
      → 16 ≤ buflen
      → ((handle_connection p request config buflen w).0
          ≡ done (
              some (record {
                length = 16;
                data_bytes = to_packet (connection_fields (connection_response request w));
              })))
        × ((handle_connection p request config buflen w).1.redis
            ≡ (p.redis_command
                (set_connection p config prefix has_prefix (identifier p w.rng))
                w.redis).1)
  unfolding handle_connection
  handle_connection-done config prefix request buflen w has_prefix a b c =
      let valid = valid_connect p config prefix has_prefix request buflen w a b c in
      let (drawn, kept) = random_int64-done p w in
      let id = identifier p w.rng in
      let inserted = insert_connection-done p config prefix has_prefix id (random_int64 p w).1 in
      let command = set_connection p config prefix has_prefix id in
      let (sent, same) =
        serialize-done (connection_response request w) (after p command (random_int64 p w).1) in
      (
        rw (valid, drawn, inserted) (rw sent),
        rw (valid, drawn, inserted) (rw sent (same ∙ ap (λ r. (p.redis_command command r).1) kept)),
      )
