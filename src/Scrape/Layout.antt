-- ===== src/Scrape/Layout.antt =====
-- The packet that answers a scrape, and the requests that the handler does not survive.
use bttracker.Common.{ℕ, ◌+◌, ◌*◌, ◌^◌, ◌<◌, ◌≡◌, ◌∙◌, arith, true, inr, length}
use bttracker.Memory.{Bytes}
use bttracker.Data.{Config, Request, ScrapeResponse}
use bttracker.Net.Fields.{to_packet}
use bttracker.Net.Responses.{scrape_response_fields, scrape_response-fields}
use bttracker.Net.Scrapes.{read_scrape_overflow}
use bttracker.Platform.{Platform, World}
use bttracker.Platform.Laws.{HasMemory}
use bttracker.Exec.{done, fault, out_of_bounds, malloc_or_exit, stack_object}
use bttracker.Exec.Runs.{malloc_or_exit-done, redis-malloc_or_exit}
use bttracker.Handshake.{valid_request}
use bttracker.Scrape.{serialize_scrape_response, handle_scrape}

module _ (p : Platform) (memory : HasMemory p) where
  -- With memory, the answer has 8 bytes and twelve for each entry, which are the fields of the
  -- response in network order, and Redis is left alone.
  pub serialize_scrape_response-done :
      (resp : ScrapeResponse) (w : World p)
      → ((serialize_scrape_response p resp w).0
          ≡ done (record {
            length = 8 + length resp.scrape_entries * 12;
            data_bytes = to_packet (scrape_response_fields resp);
          }))
        × ((serialize_scrape_response p resp w).1.redis ≡ w.redis)
  unfolding serialize_scrape_response
  serialize_scrape_response-done resp w =
      let w1 = (malloc_or_exit p 16 w).1 in
      let size = 8 + length resp.scrape_entries * 12 in
      let sized : length (memory.block size w1.heap) ≡ size = memory.block_size size w1.heap in
      let packet =
        scrape_response-fields p.endian (memory.block size w1.heap) resp (omega (arith, sized)) in
      let header = malloc_or_exit-done p 16 w memory in
      let second = malloc_or_exit-done p size w1 memory in
      (
        rw (header, second, packet),
        rw (header, second, packet) (redis-malloc_or_exit p size w1 ∙ redis-malloc_or_exit p 16 w),
      )

  -- With memory, a scrape that passes the checks and is longer than 176 bytes writes past the
  -- array of hashes.
  pub handle_scrape_overflow :
      (config : Config) (request : Request) (buff : Bytes) (buflen : ℕ) (w : World p)
      → (valid_request p config request buflen w).0 ≡ done true
      → 176 < buflen
      → buflen < 2 ^ 64
      → (handle_scrape p request config buff buflen w).0 ≡ fault out_of_bounds
  unfolding handle_scrape stack_object
  handle_scrape_overflow config request buff buflen w valid long b =
      let w1 = (valid_request p config request buflen w).1 in
      let outside =
        read_scrape_overflow p.target p.endian buff (p.stack 160 w1.heap).0 buflen
          (memory.stack_size 160 w1.heap) b (inr long) in
      rw (valid, outside)
