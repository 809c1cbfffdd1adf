-- ===== src/Pool/Limits.antt =====
-- How long the response to any datagram is.
use bttracker.Common.{◌+◌, ◌*◌, ◌^◌, ◌≤◌, ◌<◌, arith, Bool, Option, none, some, ◌⊎◌, inl, inr}
use bttracker.Memory.{Bytes}
use bttracker.Data.{Config, Request, ResponseBuffer}
use bttracker.Platform.{Platform}
use bttracker.Platform.Laws.{HasBlocks}
use bttracker.Exec.Posts.{
  Ensures, Ensures-pure, Ensures-if, Ensures-bind, Ensures-then, Ensures-map,
}
use bttracker.Exec.Responses.{IfAny, IfAny-map, some-Ensures}
use bttracker.ErrorReply.Limits.{IsShort, send_error-Limited}
use bttracker.Connect.Limits.{handle_connection-Limited}
use bttracker.Scrape.Limits.{handle_scrape-Limited}
use bttracker.Announce.Limits.{handle_announce-Limited}
use bttracker.Pool.{Job, unavailable_text, ensure_redis, some_response, dispatch, request_processor}

-- An error response has 125 bytes at most, and the response to a scrape 104; the response to an
-- announce has as many as the configuration allows.
abbrev pub IsLimited : Config → ResponseBuffer → Type 0
IsLimited config resp = (resp.length ≤ 125) ⊎ (resp.length ≤ 20 + config.announce_max_numwant * 6)

module _ (p : Platform) (blocks : HasBlocks p) (config : Config)
    (few : config.announce_max_numwant < 2 ^ 31) where
  dispatch-Limited :
      (params : Job) (request : Request) (error : Option Bytes)
      → IsShort 61 error
      → Ensures (IfAny (IsLimited config)) (dispatch p config params request error)
  unfolding dispatch some_response
  dispatch-Limited params request error h =
      Ensures-if _ _ _
        (Ensures-map (IfAny-map _ _ (λ r k. inl (omega arith)))
          (handle_connection-Limited p request config params.buflen))
        (Ensures-if _ _ _
          (Ensures-map (IfAny-map _ _ (λ r. elim [ inl k ↦ inl (omega arith) | inr k ↦ inr k ])) (
            handle_announce-Limited p request config params.buff params.buflen params.from_addr
              few))
          (Ensures-if _ _ _
            (Ensures-map (IfAny-map _ _ (λ r k. inl (omega arith)))
              (handle_scrape-Limited p blocks request config params.buff params.buflen))
            (Ensures-if _ _ _
              (some-Ensures _ _
                (Ensures-map (λ r k. inl (omega arith)) (send_error-Limited p 61 request error h)))
              (Ensures-pure none tt))))

  pub request_processor-Limited :
      (connected : Bool) (params : Job)
      → Ensures (λ r. IfAny (IsLimited config) r.1) (request_processor p config connected params)
  unfolding request_processor
  request_processor-Limited connected params =
      Ensures-then (ensure_redis p config connected) _ (λ ready.
        Ensures-bind (IfAny (IsLimited config)) _ _
          (Ensures-if ready _ _ (dispatch-Limited params _ none tt)
            (dispatch-Limited params _ (some unavailable_text) (omega arith)))
          (λ resp h. Ensures-pure _ h))
