-- ===== src/Connect/Pipelines.antt =====
-- The replies of Redis that the answer to a connect reads.
use bttracker.Common.{ℕ, none}
use bttracker.Data.{Config, Request, ConnectionResponse}
use bttracker.Platform.{Platform}
use bttracker.Platform.Pipelines.{HasPipeline}
use bttracker.Exec.Pipelines.{
  Leaves, Leaves-pure, Leaves-or_fault, Leaves-if, Leaves-then, malloc_or_exit-Leaves,
}
use bttracker.Random.Pipelines.{random_int64-Leaves}
use bttracker.Redis.Pipelines.{insert_connection-Leaves}
use bttracker.Handshake.Pipelines.{valid_request-Leaves}
use bttracker.Connect.{serialize_connection_response, handle_connection}

module _ (p : Platform) (pipe : HasPipeline p) (n : ℕ) where
  serialize_connection_response-Leaves :
      (resp : ConnectionResponse) → Leaves pipe n n (serialize_connection_response p resp)
  unfolding serialize_connection_response
  serialize_connection_response-Leaves resp =
      Leaves-then _ _ (malloc_or_exit-Leaves pipe n 16) (λ header.
        Leaves-then _ _ (malloc_or_exit-Leaves pipe n 16)
          (λ block. Leaves-then _ _ (Leaves-or_fault n _ _) (λ resp. Leaves-pure n _)))

  pub handle_connection-Leaves :
      (request : Request) (config : Config) (buflen : ℕ)
      → Leaves pipe n n (handle_connection p request config buflen)
  unfolding handle_connection
  handle_connection-Leaves request config buflen =
      Leaves-then _ _ (valid_request-Leaves p pipe n config request buflen) (λ valid.
        Leaves-if n n valid _ _
          (Leaves-then _ _ (random_int64-Leaves p pipe n) (λ id.
            Leaves-then _ _ (insert_connection-Leaves p pipe n config id) (λ _.
              Leaves-then _ _ (serialize_connection_response-Leaves _) (λ resp. Leaves-pure n _))))
          (Leaves-pure n none))
