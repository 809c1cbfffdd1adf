-- ===== src/Pool/Whole.antt =====
-- The bytes and the length of the response to a datagram.
use bttracker.Common.{some, refl, All, Bool, Option, none}
use bttracker.Memory.{Bytes, IsByte}
use bttracker.Data.{Config, Request}
use bttracker.Platform.{Platform}
use bttracker.Platform.Laws.{HasBlocks}
use bttracker.Exec.Posts.{Ensures, Ensures-pure, Ensures-if, Ensures-bind, Ensures-then}
use bttracker.Exec.Responses.{IsPacket, IfAny, some-Ensures}
use bttracker.ErrorReply.Whole.{IsTextIfAny, are_bytes, are_bytes-All, send_error-Ensures}
use bttracker.Connect.Whole.{handle_connection-Ensures}
use bttracker.Scrape.Whole.{handle_scrape-Ensures}
use bttracker.Announce.Whole.{handle_announce-Ensures}
use bttracker.Pool.{unavailable_text, Job, ensure_redis, some_response, dispatch, request_processor}

unavailable-IsByte : All IsByte unavailable_text
unfolding are_bytes
unavailable-IsByte = are_bytes-All unavailable_text refl

module _ (p : Platform) (blocks : HasBlocks p) where
  dispatch-Ensures :
      (config : Config) (params : Job) (request : Request) (error : Option Bytes)
      → IsTextIfAny error
      → Ensures (IfAny IsPacket) (dispatch p config params request error)
  unfolding dispatch some_response
  dispatch-Ensures config params request error h =
      Ensures-if _ _ _ (handle_connection-Ensures p blocks request config params.buflen) (
        Ensures-if _ _ _
          (handle_announce-Ensures p blocks request config params.buff params.buflen
            params.from_addr)
          (Ensures-if _ _ _
            (handle_scrape-Ensures p blocks request config params.buff params.buflen)
            (Ensures-if _ _ _ (some-Ensures _ _ (send_error-Ensures p blocks request error h))
              (Ensures-pure none tt))))

  -- Where blocks are arrays of bytes of the size that was asked for, so is every response that a
  -- worker makes of a job.
  pub request_processor-Ensures :
      (config : Config) (connected : Bool) (params : Job)
      → Ensures (λ r. (IfAny IsPacket) r.1) (request_processor p config connected params)
  unfolding request_processor
  request_processor-Ensures config connected params =
      Ensures-then (ensure_redis p config connected) _ (λ ready.
        Ensures-bind (IfAny IsPacket) _ _
          (Ensures-if ready _ _ (dispatch-Ensures config params _ none tt)
            (dispatch-Ensures config params _ (some unavailable_text) unavailable-IsByte))
          (λ resp whole. Ensures-pure _ whole))
