-- ===== src/Connect/Echoes.antt =====
-- What the response to a connect begins with.
use bttracker.Common.{ℕ, none, inl}
use bttracker.Data.{Config, Request, ConnectionResponse}
use bttracker.Net.Heads.{head, connection-IsHeaded}
use bttracker.Platform.{Platform}
use bttracker.Exec.{malloc_or_exit}
use bttracker.Exec.Posts.{Ensures, Ensures-pure, Ensures-if, Ensures-map, Ensures-then}
use bttracker.Exec.Responses.{IfAny, some-Ensures}
use bttracker.Exec.Echoes.{Begins, IsReplyTo, Begins-Ensures}
use bttracker.Random.{random_int64}
use bttracker.Redis.{insert_connection}
use bttracker.Handshake.{valid_request}
use bttracker.Connect.{serialize_connection_response, handle_connection}

module _ (p : Platform) where
  serialize_connection_response-Begins :
      (resp : ConnectionResponse)
      → Ensures
          (Begins (head resp.action resp.transaction_id))
          (serialize_connection_response p resp)
  unfolding serialize_connection_response
  serialize_connection_response-Begins resp = Ensures-then (malloc_or_exit p 16) _ (λ header.
      Ensures-then (malloc_or_exit p 16) _
        (λ block. Begins-Ensures _ _ (connection-IsHeaded p.endian p.target block resp) 16))

  pub handle_connection-Echoes :
      (request : Request) (config : Config) (buflen : ℕ)
      → Ensures (IfAny (IsReplyTo request)) (handle_connection p request config buflen)
  unfolding handle_connection
  handle_connection-Echoes request config buflen =
      Ensures-then (valid_request p config request buflen) _ (λ valid.
        Ensures-if valid _ _
          (Ensures-then (random_int64 p) _ (λ id.
            Ensures-then (insert_connection p config id) _ (λ _.
              some-Ensures _ _
                (Ensures-map (λ r h. inl h) (serialize_connection_response-Begins _)))))
          (Ensures-pure none tt))
