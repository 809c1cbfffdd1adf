-- ===== src/Connect/Limits.antt =====
-- How long the response to a connect is.
use bttracker.Common.{ℕ, ◌≤◌, arith, none}
use bttracker.Data.{Config, Request, ConnectionResponse}
use bttracker.Net.{write_connection_data}
use bttracker.Platform.{Platform}
use bttracker.Exec.{or_fault, out_of_bounds, malloc_or_exit}
use bttracker.Exec.Posts.{Ensures, Ensures-pure, Ensures-if, Ensures-then}
use bttracker.Exec.Responses.{IfAny, some-Ensures}
use bttracker.Random.{random_int64}
use bttracker.Redis.{insert_connection}
use bttracker.Handshake.{valid_request}
use bttracker.Connect.{serialize_connection_response, handle_connection}

module _ (p : Platform) where
  serialize_connection_response-Limited :
      (resp : ConnectionResponse)
      → Ensures (λ r. r.length ≤ 16) (serialize_connection_response p resp)
  unfolding serialize_connection_response
  serialize_connection_response-Limited resp = Ensures-then (malloc_or_exit p 16) _ (λ header.
      Ensures-then (malloc_or_exit p 16) _ (λ block.
        Ensures-then (or_fault out_of_bounds (write_connection_data p.target p.endian block resp)) _
          (λ b. Ensures-pure (record { length = 16; data_bytes = b }) (omega arith))))

  pub handle_connection-Limited :
      (request : Request) (config : Config) (buflen : ℕ)
      → Ensures (IfAny (λ r. r.length ≤ 16)) (handle_connection p request config buflen)
  unfolding handle_connection
  handle_connection-Limited request config buflen =
      Ensures-then (valid_request p config request buflen) _ (λ valid.
        Ensures-if valid _ _
          (Ensures-then (random_int64 p) _ (λ id.
            Ensures-then (insert_connection p config id) _
              (λ _. some-Ensures _ _ (serialize_connection_response-Limited _))))
          (Ensures-pure none tt))
