-- ===== src/Scrape/Whole.antt =====
-- The bytes and the length of the response to a scrape.
use bttracker.Common.{refl, All, ℕ, ◌+◌, ◌*◌, Option, none, some, List, [], length}
use bttracker.Memory.{Bytes, IsByte}
use bttracker.Data.{Config, Request, ScrapeResponse, TorrentStats}
use bttracker.Net.{read_scrape_request_data}
use bttracker.Net.Sizes.{HasBytes-scrape_response}
use bttracker.Platform.{Platform}
use bttracker.Platform.Laws.{HasBlocks}
use bttracker.Exec.{or_fault, out_of_bounds, malloc_or_exit, stack_object}
use bttracker.Exec.Posts.{
  Ensures, Ensures-pure, Ensures-if, Ensures-bind, Ensures-then, IsBlock, malloc_or_exit-Ensures,
}
use bttracker.Exec.Responses.{IsPacket, IfAny, respond-Ensures, some-Ensures}
use bttracker.Handshake.{valid_request}
use bttracker.ErrorReply.Whole.{are_bytes, are_bytes-All, send_error-Ensures}
use bttracker.Scrape.{
  blacklisted_text, serialize_scrape_response, scrape_loop, scrape_response, handle_scrape,
}

pub blacklisted-IsByte : All IsByte blacklisted_text
unfolding are_bytes
blacklisted-IsByte = are_bytes-All blacklisted_text refl

module _ (p : Platform) (blocks : HasBlocks p) where
  serialize_scrape_response-Ensures :
      (resp : ScrapeResponse) → Ensures IsPacket (serialize_scrape_response p resp)
  unfolding serialize_scrape_response
  serialize_scrape_response-Ensures resp =
      let n = 8 + length resp.scrape_entries * 12 in
      Ensures-then (malloc_or_exit p 16) _ (λ header.
        Ensures-bind (IsBlock p blocks n) (malloc_or_exit p n) _ (malloc_or_exit-Ensures p blocks n)
          (λ block size. respond-Ensures n _ (HasBytes-scrape_response n p.endian block resp size)))

  scrape_response-Ensures :
      (request : Request) (entries : Option (List TorrentStats))
      → Ensures IsPacket (scrape_response p request entries)
  unfolding scrape_response
  scrape_response-Ensures request none =
      send_error-Ensures p blocks request (some blacklisted_text) blacklisted-IsByte
  scrape_response-Ensures request (some entries) = serialize_scrape_response-Ensures _

  pub handle_scrape-Ensures :
      (request : Request) (config : Config) (buff : Bytes) (buflen : ℕ)
      → Ensures (IfAny IsPacket) (handle_scrape p request config buff buflen)
  unfolding handle_scrape
  handle_scrape-Ensures request config buff buflen =
      Ensures-then (valid_request p config request buflen) _ (λ valid.
        Ensures-if valid _ _
          (Ensures-then (stack_object p 160) _ (λ array.
            Ensures-then
              (or_fault out_of_bounds
                (read_scrape_request_data p.target p.endian buff buflen array))
              _
              (λ scrape_request.
                Ensures-then
                  (scrape_loop p config scrape_request.info_hash scrape_request.info_hash_len 0 [])
                  _ (λ entries. some-Ensures _ _ (scrape_response-Ensures request entries)))))
          (Ensures-pure none tt))
