-- ===== src/Connect/Whole.antt =====
-- The bytes and the length of the response to a connect.
use bttracker.Common.{ℕ, none}
use bttracker.Data.{Config, Request, ConnectionResponse}
use bttracker.Net.Sizes.{HasBytes-connection}
use bttracker.Platform.{Platform}
use bttracker.Platform.Laws.{HasBlocks}
use bttracker.Exec.{malloc_or_exit}
use bttracker.Exec.Posts.{
  Ensures, Ensures-pure, Ensures-if, Ensures-bind, Ensures-then, IsBlock, malloc_or_exit-Ensures,
}
use bttracker.Exec.Responses.{IsPacket, IfAny, respond-Ensures, some-Ensures}
use bttracker.Random.{random_int64}
use bttracker.Redis.{insert_connection}
use bttracker.Handshake.{valid_request}
use bttracker.Connect.{serialize_connection_response, handle_connection}

module _ (p : Platform) (blocks : HasBlocks p) where
  serialize_connection_response-Ensures :
      (resp : ConnectionResponse) → Ensures IsPacket (serialize_connection_response p resp)
  unfolding serialize_connection_response
  serialize_connection_response-Ensures resp = Ensures-then (malloc_or_exit p 16) _ (λ header.
      Ensures-bind (IsBlock p blocks 16) (malloc_or_exit p 16) _
        (malloc_or_exit-Ensures p blocks 16)
        (λ block size.
          respond-Ensures 16 _ (HasBytes-connection 16 p.endian p.target block resp size)))

  pub handle_connection-Ensures :
      (request : Request) (config : Config) (buflen : ℕ)
      → Ensures (IfAny IsPacket) (handle_connection p request config buflen)
  unfolding handle_connection
  handle_connection-Ensures request config buflen =
      Ensures-then (valid_request p config request buflen) _ (λ valid.
        Ensures-if valid _ _
          (Ensures-then (random_int64 p) _ (λ id.
            Ensures-then (insert_connection p config id) _
              (λ _. some-Ensures _ _ (serialize_connection_response-Ensures _))))
          (Ensures-pure none tt))
