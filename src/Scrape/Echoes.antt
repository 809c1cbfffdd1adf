-- ===== src/Scrape/Echoes.antt =====
-- What the response to a scrape begins with.
use bttracker.Common.{ℕ, ◌+◌, ◌*◌, Option, none, some, List, [], reverse, length, inl, inr}
use bttracker.Memory.{Bytes}
use bttracker.Data.{Config, Request, ScrapeResponse, TorrentStats}
use bttracker.Net.{read_scrape_request_data}
use bttracker.Net.Heads.{head, scrape_response-IsHeaded}
use bttracker.Platform.{Platform}
use bttracker.Exec.{or_fault, out_of_bounds, malloc_or_exit, stack_object}
use bttracker.Exec.Posts.{Ensures, Ensures-pure, Ensures-if, Ensures-map, Ensures-then}
use bttracker.Exec.Responses.{IfAny, some-Ensures}
use bttracker.Exec.Echoes.{Begins, IsReplyTo, Begins-Ensures}
use bttracker.Handshake.{valid_request}
use bttracker.ErrorReply.Echoes.{send_error-Begins}
use bttracker.Scrape.{
  blacklisted_text, serialize_scrape_response, scrape_loop, scrape_response, handle_scrape,
}

module _ (p : Platform) where
  serialize_scrape_response-Begins :
      (resp : ScrapeResponse)
      → Ensures (Begins (head resp.action resp.transaction_id)) (serialize_scrape_response p resp)
  unfolding serialize_scrape_response
  serialize_scrape_response-Begins resp = Ensures-then (malloc_or_exit p 16) _ (λ header.
      Ensures-then (malloc_or_exit p (8 + length resp.scrape_entries * 12)) _
        (λ block. Begins-Ensures _ _ (scrape_response-IsHeaded p.endian block resp) _))

  scrape_response-Echoes :
      (request : Request) (entries : Option (List TorrentStats))
      → Ensures (IsReplyTo request) (scrape_response p request entries)
  unfolding scrape_response
  scrape_response-Echoes request none =
      Ensures-map (λ r h. inr h) (send_error-Begins p request (some blacklisted_text))
  scrape_response-Echoes request (some entries) =
      Ensures-map (λ r h. inl h)
        (serialize_scrape_response-Begins (record {
          action = request.action;
          transaction_id = request.transaction_id;
          scrape_entries = reverse entries;
        }))

  pub handle_scrape-Echoes :
      (request : Request) (config : Config) (buff : Bytes) (buflen : ℕ)
      → Ensures (IfAny (IsReplyTo request)) (handle_scrape p request config buff buflen)
  unfolding handle_scrape
  handle_scrape-Echoes request config buff buflen =
      Ensures-then (valid_request p config request buflen) _ (λ valid.
        Ensures-if valid _ _
          (Ensures-then (stack_object p 160) _ (λ array.
            Ensures-then
              (or_fault out_of_bounds
                (read_scrape_request_data p.target p.endian buff buflen array))
              _
              (λ r.
                Ensures-then (scrape_loop p config r.info_hash r.info_hash_len 0 []) _
                  (λ entries. some-Ensures _ _ (scrape_response-Echoes request entries)))))
          (Ensures-pure none tt))
