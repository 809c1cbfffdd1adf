-- ===== src/Pool.antt =====
-- src/pool.c: what a worker does with one job. The handle in the thread's local storage is the flag
-- that says whether there is a connection.
pub mod Dispatch
pub mod Whole
pub mod Returns
pub mod Pipelines
pub mod Limits
pub mod Echoes
pub mod Outages
use bttracker.Common.{
  ℕ, ◌+◌, ◌*◌, ◌%◌, ◌^◌, Bool, true, false, Option, none, some, List, [], ◌∷◌, ◌++◌, ◌==◌,
  if◌then◌else◌,
}
use bttracker.Memory.{Bytes, size_of_int32}
use bttracker.Text.{codes}
use bttracker.Data.{
  Config, Request, ResponseBuffer, action_connect, action_announce, action_scrape, action_error,
}
use bttracker.Net.{read_request_data}
use bttracker.Platform.{Platform}
use bttracker.Exec.{M, ◌>>=◌, pure}
use bttracker.Redis.{redis_connect, redis_ping}
use bttracker.ErrorReply.{send_error}
use bttracker.Connect.{handle_connection}
use bttracker.Scrape.{handle_scrape}
use bttracker.Announce.{handle_announce}

-- `bt_job_params_t`: the cloned buffer, the length of the datagram, and the bytes of the address
-- that `from_addr` points to.
pub record Job : Type 0 where
  pub buff : Bytes
  pub buflen : ℕ
  pub from_addr : Bytes

abbrev pub unavailable_text : Bytes
unavailable_text = codes "Tracker temporarily unavailable: data storage is not working" ++ (0 ∷ [])

module _ (p : Platform) where
  -- `redis_timeout` is an `int` and becomes a `long`, here a pattern of 64 bits.
  unfoldable pub connect : Config → M p Bool
  connect config =
      redis_connect p config.redis_socket_path config.redis_host config.redis_port
        (size_of_int32 (config.redis_timeout * 1000 % 2 ^ 32)) config.redis_db

  -- A thread with a connection that answers keeps it; any other connects.
  unfoldable pub ensure_redis : Config → Bool → M p Bool
  unfolding connect
  ensure_redis config true = redis_ping p >>= λ alive. if alive then pure true else connect config
  ensure_redis config false = connect config

  pub some_response : M p ResponseBuffer → M p (Option ResponseBuffer)
  some_response m = m >>= λ resp. pure (some resp)

  pub dispatch : Config → Job → Request → Option Bytes → M p (Option ResponseBuffer)
  unfolding some_response
  dispatch config params request error =
      if request.action == action_connect
      then handle_connection p request config params.buflen
      else if request.action == action_announce
      then handle_announce p request config params.buff params.buflen params.from_addr
      else if request.action == action_scrape
      then handle_scrape p request config params.buff params.buflen
      else if request.action == action_error
      then some_response (send_error p request error)
      else pure none

  -- The new flag of the thread, and the response to be sent if there is one.
  pub request_processor : Config → Bool → Job → M p (Bool × Option ResponseBuffer)
  request_processor config connected params = do
    let request = read_request_data p.target p.endian params.buff
    ready ← ensure_redis config connected
    resp ←
        if ready
        then dispatch config params request none
        else dispatch config params (record request { action = action_error })
            (some unavailable_text)
    pure (ready, resp)
