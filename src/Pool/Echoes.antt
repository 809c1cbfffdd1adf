-- ===== src/Pool/Echoes.antt =====
-- What the response to a datagram begins with.
use bttracker.Common.{Bool, Option, none, some, inl, inr}
use bttracker.Memory.{Bytes}
use bttracker.Data.{Config, Request, action_error}
use bttracker.Net.{read_request_data}
use bttracker.Platform.{Platform}
use bttracker.Exec.Posts.{
  Ensures, Ensures-pure, Ensures-if, Ensures-map, Ensures-bind, Ensures-then,
}
use bttracker.Exec.Responses.{IfAny, IfAny-map, some-Ensures}
use bttracker.Exec.Echoes.{IsReplyTo}
use bttracker.ErrorReply.Echoes.{send_error-Begins}
use bttracker.Connect.Echoes.{handle_connection-Echoes}
use bttracker.Scrape.Echoes.{handle_scrape-Echoes}
use bttracker.Announce.Echoes.{handle_announce-Echoes}
use bttracker.Pool.{Job, unavailable_text, ensure_redis, some_response, dispatch, request_processor}

module _ (p : Platform) (config : Config) where
  dispatch-Echoes :
      (params : Job) (request : Request) (error : Option Bytes)
      → Ensures (IfAny (IsReplyTo request)) (dispatch p config params request error)
  unfolding dispatch some_response
  dispatch-Echoes params request error =
      Ensures-if _ _ _ (handle_connection-Echoes p request config params.buflen) (
        Ensures-if _ _ _
          (handle_announce-Echoes p request config params.buff params.buflen params.from_addr)
          (Ensures-if _ _ _ (handle_scrape-Echoes p request config params.buff params.buflen) (
            Ensures-if _ _ _
              (some-Ensures _ _ (Ensures-map (λ r h. inr h) (send_error-Begins p request error)))
              (Ensures-pure none tt))))

  -- Whether Redis works or not, the response that a worker makes of a job answers the request that
  -- its buffer begins with.
  pub request_processor-Echoes :
      (connected : Bool) (params : Job)
      → Ensures
          (λ r. IfAny (IsReplyTo (read_request_data p.target p.endian params.buff)) r.1)
          (request_processor p config connected params)
  unfolding request_processor
  request_processor-Echoes connected params =
      let request = read_request_data p.target p.endian params.buff in
      Ensures-then (ensure_redis p config connected) _ (λ ready.
        Ensures-bind (IfAny (IsReplyTo request)) _ _
          (Ensures-if ready _ _ (dispatch-Echoes params request none) (
            Ensures-map (IfAny-map _ _ (λ r. elim [ inl h ↦ inr h | inr h ↦ inr h ])) (
              dispatch-Echoes params (record request { action = action_error })
                (some unavailable_text))))
          (λ resp h. Ensures-pure _ h))
