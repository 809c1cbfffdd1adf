-- ===== src/Pool/Dispatch.antt =====
-- What a worker answers, from the connection to Redis and the action of the request.
use bttracker.Common.{
  ◌+◌, ◌≡◌, refl, arith, Bool, true, false, Option, none, some, ◌++◌, length, ◌<◌, ◌≤◌,
}
use bttracker.Memory.{Bytes}
use bttracker.Data.{Config, Request, action_connect, action_error, protocol_id}
use bttracker.Net.{read_request_data}
use bttracker.Net.Fields.{to_packet}
use bttracker.Net.Responses.{connection_fields, error_fields}
use bttracker.Platform.{Platform, World}
use bttracker.Platform.Laws.{HasMemory}
use bttracker.Exec.{done, fault, null_pointer}
use bttracker.ErrorReply.{send_error}
use bttracker.ErrorReply.Layout.{send_error_layout, send_error_null}
use bttracker.Connect.{handle_connection}
use bttracker.Connect.Layout.{connection_response, handle_connection-done}
use bttracker.ByteOrder.{IsSupported}
use bttracker.Pool.{Job, unavailable_text, ensure_redis, dispatch, some_response, request_processor}

module _ (p : Platform) (config : Config) (params : Job) (request : Request)
    (error : Option Bytes) where
  dispatch_unknown :
      (w : World p)
      → action_error < request.action
      → dispatch p config params request error w ≡ (done none, w)
  unfolding dispatch
  dispatch_unknown w h = ground arith

  pub dispatch_connect :
      (w : World p)
      → request.action ≡ action_connect
      → dispatch p config params request error w
        ≡ handle_connection p request config params.buflen w
  unfolding dispatch
  dispatch_connect w h = ground arith

  dispatch_error :
      (w : World p)
      → request.action ≡ action_error
      → dispatch p config params request error w ≡ some_response p (send_error p request error) w
  unfolding dispatch
  dispatch_error w h = ground arith

module _ (p : Platform) (config : Config) (connected : Bool) (params : Job) (w : World p) where
  abbrev pub header : Request
  header = read_request_data p.target p.endian params.buff

  -- With a connection to Redis, an action that is no action of the protocol draws no response.
  pub unknown_action_silent :
      (ensure_redis p config connected w).0 ≡ done true
      → action_error < header.action
      → (request_processor p config connected params w).0 ≡ done (true, none)
  unfolding request_processor
  unknown_action_silent ready h =
      rw (
        ready,
        dispatch_unknown p config params header none (ensure_redis p config connected w).1 h,
      )

  module _ (memory : HasMemory p) where
    -- With memory, and no connection to Redis, every request, whatever its action, gets the error
    -- packet with the request's transaction and the text that the tracker is unavailable, and 56
    -- more bytes.
    pub unavailable_answered :
        (ensure_redis p config connected w).0 ≡ done false
        → (junk : Bytes) × (length junk ≡ 56)
          × ((request_processor p config connected params w).0
              ≡ done (
                false,
                some (record {
                  length = 64 + length unavailable_text;
                  data_bytes =
                      to_packet
                        (error_fields (record header { action = action_error }) unavailable_text)
                      ++ junk;
                }),
              ))
    unfolding request_processor some_response
    unavailable_answered down =
        let w1 = (ensure_redis p config connected w).1 in
        let request = record header { action = action_error } in
        let (junk, size, sent) = send_error_layout p memory request w1 unavailable_text in
        (
          junk,
          size,
          rw (down, dispatch_error p config params request (some unavailable_text) w1 refl, sent),
        )

    -- With memory and a connection to Redis, a request whose action is 3 makes the worker read
    -- through NULL.
    pub error_action_faults :
        (ensure_redis p config connected w).0 ≡ done true
        → header.action ≡ action_error
        → (request_processor p config connected params w).0 ≡ fault null_pointer
    unfolding request_processor some_response
    error_action_faults ready h =
        let w1 = (ensure_redis p config connected w).1 in
        rw (
          ready,
          dispatch_error p config params header none w1 h,
          send_error_null p memory header w1,
        )

    -- What a connect draws, with a connection to Redis, is what its handler answers.
    pub connect_answered :
        (ok : IsSupported p.target p.endian) (prefix : Bytes)
        → config.redis_key_prefix ≡ some prefix
        → (ensure_redis p config connected w).0 ≡ done true
        → header.action ≡ action_connect
        → header.connection_id ≡ protocol_id
        → 16 ≤ params.buflen
        → let w1 = (ensure_redis p config connected w).1 in
          ((request_processor p config connected params w).0
            ≡ done (
              true,
              some (record {
                length = 16;
                data_bytes =
                    to_packet (connection_fields (connection_response p memory ok header w1));
              }),
            ))
          × ((request_processor p config connected params w).1
              ≡ (handle_connection p header config params.buflen w1).1)
    unfolding request_processor
    connect_answered ok prefix has_prefix ready a c long =
        let w1 = (ensure_redis p config connected w).1 in
        let (answered, kept) =
          handle_connection-done p memory ok config prefix header params.buflen w1 has_prefix a c
            long in
        let handled = dispatch_connect p config params header none w1 a in
        (rw (ready, handled, answered), rw (ready, handled, answered))
