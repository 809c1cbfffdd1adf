-- ===== src/Pool/Returns.antt =====
-- Jobs that a worker serves to their end, as long as the replies to queued commands come.
use bttracker.Common.{ℕ, ◌≤◌, ◌<◌, ◌≡◌, ◌⊎◌, inl, inr, arith, Bool, true, false, none, some, ◌==◌}
use bttracker.Memory.{Bytes}
use bttracker.ByteOrder.{IsSupported}
use bttracker.Data.{Config, Request, action_connect, action_announce, action_scrape, action_error}
use bttracker.Net.{read_request_data}
use bttracker.Platform.{Platform}
use bttracker.Platform.Laws.{HasMemory, HasReplies}
use bttracker.Exec.Returns.{Returns, Returns-pure, Gives-if, Gives-if_known, Gives-then}
use bttracker.Redis.Returns.{redis_ping-Returns, redis_connect-Returns}
use bttracker.ErrorReply.Layout.{send_error_layout}
use bttracker.Connect.Returns.{handle_connection-Returns}
use bttracker.Scrape.Returns.{handle_scrape-Returns}
use bttracker.Pool.{
  Job, unavailable_text, connect, ensure_redis, some_response, dispatch, request_processor,
}

-- A connect, a scrape whose hashes fit the array, or an action that is none of the protocol.
abbrev pub IsServed : ℕ → ℕ → Type 0
IsServed action buflen =
    (action ≡ action_connect)
    ⊎ (((action ≡ action_scrape) × (16 ≤ buflen) × (buflen ≤ 176)) ⊎ (action_error < action))

served_not_announce :
    (action buflen : ℕ) → IsServed action buflen → (action == action_announce) ≡ true → ⊥
served_not_announce action buflen (inl c) e = ground arith
served_not_announce action buflen (inr (inl (s, low, high))) e = ground arith
served_not_announce action buflen (inr (inr u)) e = ground arith

served_not_error :
    (action buflen : ℕ) → IsServed action buflen → (action == action_error) ≡ true → ⊥
served_not_error action buflen (inl c) e = ground arith
served_not_error action buflen (inr (inl (s, low, high))) e = ground arith
served_not_error action buflen (inr (inr u)) e = ground arith

served_scrape :
    (action buflen : ℕ)
    → IsServed action buflen
    → (action == action_scrape) ≡ true
    → (16 ≤ buflen) × (buflen ≤ 176)
served_scrape action buflen (inl c) e = absurd (ground arith)
served_scrape action buflen (inr (inl (s, low, high))) e = (low, high)
served_scrape action buflen (inr (inr u)) e = absurd (ground arith)

module _ (p : Platform) where
  connect-Returns : (config : Config) → Returns (connect p config)
  unfolding connect
  connect-Returns config = redis_connect-Returns p _ _ _ _ _

  ensure_redis-Returns :
      (config : Config) (connected : Bool) → Returns (ensure_redis p config connected)
  unfolding ensure_redis
  ensure_redis-Returns config true =
      Gives-then _ _ (redis_ping-Returns p)
        (λ alive. Gives-if alive _ _ (Returns-pure true) (connect-Returns config))
  ensure_redis-Returns config false = connect-Returns config

  module _ (memory : HasMemory p) (replies : HasReplies p) (ok : IsSupported p.target p.endian)
      (config : Config) (prefix : Bytes) (has_prefix : config.redis_key_prefix ≡ some prefix) where
    dispatch-Returns :
        (params : Job) (request : Request)
        → IsServed request.action params.buflen
        → Returns (dispatch p config params request none)
    unfolding dispatch
    dispatch-Returns params request h =
        Gives-if (request.action == action_connect) _ _
          (handle_connection-Returns p memory ok config prefix has_prefix request params.buflen)
          (Gives-if_known (request.action == action_announce) _ _
            (λ e. absurd (served_not_announce request.action params.buflen h e))
            (λ _.
              Gives-if_known (request.action == action_scrape) _ _
                (λ e.
                  let (low, high) = served_scrape request.action params.buflen h e in
                  handle_scrape-Returns p memory replies config prefix has_prefix request
                    params.buff params.buflen low high)
                (λ _.
                  Gives-if_known (request.action == action_error) _ _
                    (λ e. absurd (served_not_error request.action params.buflen h e))
                    (λ _. Returns-pure none))))

    unavailable-Returns :
        (params : Job) (request : Request)
        → Returns (
            dispatch p config params
              (record request { action = action_error })
              (some unavailable_text))
    unfolding dispatch some_response
    unavailable-Returns params request =
        Gives-then _ _
          (record {
            at = λ w.
                let (junk, size, sent) =
                  send_error_layout p memory (record request { action = action_error }) w
                    unavailable_text in
                (_, sent, tt);
          })
          (λ resp. Returns-pure (some resp))

    -- With memory, a supported byte order and a key prefix, whatever Redis answers, also where it
    -- cannot be connected to, as long as no `redisGetReply` fails: a worker that takes a connect, a scrape of 16 to 176 bytes, or a packet with an action above 3
    -- gets to the end of it, without a fault and without an exit.
    pub request_processor-Returns :
        (connected : Bool) (params : Job)
        → IsServed (read_request_data p.target p.endian params.buff).action params.buflen
        → Returns (request_processor p config connected params)
    unfolding request_processor
    request_processor-Returns connected params h =
        Gives-then _ _ (ensure_redis-Returns config connected) (λ ready.
          Gives-then _ _
            (Gives-if ready _ _ (dispatch-Returns params _ h)
              (unavailable-Returns params (read_request_data p.target p.endian params.buff)))
            (λ resp. Returns-pure (ready, resp)))
