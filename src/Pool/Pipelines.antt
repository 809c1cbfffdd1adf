-- ===== src/Pool/Pipelines.antt =====
-- The replies of Redis that a job reads.
use bttracker.Common.{ℕ, Bool, true, false, Option, none}
use bttracker.Memory.{Bytes}
use bttracker.Data.{Config, Request}
use bttracker.Platform.{Platform}
use bttracker.Platform.Pipelines.{HasPipeline}
use bttracker.Exec.Pipelines.{Leaves, Leaves-pure, Leaves-if, Leaves-then}
use bttracker.Redis.Pipelines.{redis_ping-Leaves, redis_connect-Leaves}
use bttracker.ErrorReply.Pipelines.{send_error-Leaves}
use bttracker.Connect.Pipelines.{handle_connection-Leaves}
use bttracker.Scrape.Pipelines.{handle_scrape-Leaves}
use bttracker.Announce.Pipelines.{handle_announce-Leaves}
use bttracker.Pool.{Job, connect, ensure_redis, some_response, dispatch, request_processor}

module _ (p : Platform) (pipe : HasPipeline p) where
  connect-Leaves : (n : ℕ) (config : Config) → Leaves pipe n 0 (connect p config)
  unfolding connect
  connect-Leaves n config = redis_connect-Leaves p pipe n _ _ _ _ _

  ensure_redis-Leaves :
      (config : Config) (connected : Bool) → Leaves pipe 0 0 (ensure_redis p config connected)
  unfolding ensure_redis
  ensure_redis-Leaves config true =
      Leaves-then _ _ (redis_ping-Leaves p pipe 0)
        (λ alive. Leaves-if 0 0 alive _ _ (Leaves-pure 0 true) (connect-Leaves 0 config))
  ensure_redis-Leaves config false = connect-Leaves 0 config

  dispatch-Leaves :
      (n : ℕ) (config : Config) (params : Job) (request : Request) (error : Option Bytes)
      → Leaves pipe n n (dispatch p config params request error)
  unfolding dispatch some_response
  dispatch-Leaves n config params request error =
      Leaves-if n n _ _ _ (handle_connection-Leaves p pipe n request config params.buflen) (
        Leaves-if n n _ _ _
          (handle_announce-Leaves p pipe n request config params.buff params.buflen
            params.from_addr)
          (Leaves-if n n _ _ _
            (handle_scrape-Leaves p pipe n request config params.buff params.buflen)
            (Leaves-if n n _ _ _
              (Leaves-then _ _ (send_error-Leaves p pipe n request error) (λ resp. Leaves-pure n _))
              (Leaves-pure n none))))

  -- With replies to commands that are counted as hiredis documents it, on the connection of the
  -- thread that runs: a job that begins with no reply unread, or with the connection lost, and that
  -- ends with a value, leaves none unread, unless the connection is lost then.
  pub request_processor-Leaves :
      (config : Config) (connected : Bool) (params : Job)
      → Leaves pipe 0 0 (request_processor p config connected params)
  unfolding request_processor
  request_processor-Leaves config connected params =
      Leaves-then _ _ (ensure_redis-Leaves config connected) (λ ready.
        Leaves-then _ _
          (Leaves-if 0 0 ready _ _ (dispatch-Leaves 0 config params _ none)
            (dispatch-Leaves 0 config params _ _))
          (λ resp. Leaves-pure 0 (ready, resp)))
