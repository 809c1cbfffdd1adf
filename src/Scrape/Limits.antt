-- ===== src/Scrape/Limits.antt =====
-- How long the response to a scrape is.
use mathlib.Core.Path.{subst}
use bttracker.Common.{
  ℕ, zero, suc, ◌+◌, ◌*◌, ◌≤◌, ◌≡◌, arith, Option, none, some, List, [], ◌∷◌, length,
  length-reverse,
}
use bttracker.Memory.{Bytes, slice}
use bttracker.Data.{Config, Request, ScrapeRequest, ScrapeResponse, TorrentStats}
use bttracker.Net.{read_scrape_request_data, write_scrape_response_data}
use bttracker.Net.Limits.{HasFew, read_scrape_request_data-HasFew}
use bttracker.Platform.{Platform}
use bttracker.Platform.Laws.{HasBlocks}
use bttracker.Exec.{or_fault, out_of_bounds, malloc_or_exit, stack_object}
use bttracker.Exec.Posts.{
  Ensures, Ensures-pure, Ensures-if, Ensures-elim, Ensures-bind, Ensures-then, Ensures-map,
  Ensures-or_fault, stack_object-Ensures,
}
use bttracker.Exec.Responses.{IfAny, some-Ensures}
use bttracker.Hex.{bytearray_to_hexarray}
use bttracker.Redis.{info_hash_blacklisted}
use bttracker.Handshake.{valid_request}
use bttracker.ErrorReply.Limits.{send_error-Limited}
use bttracker.Scrape.{
  blacklisted_text, serialize_scrape_response, entry_stats, scrape_loop, scrape_response,
  handle_scrape,
}

module _ (p : Platform) where
  abbrev HasAtMost : ℕ → Option (List TorrentStats) → Type 0
  HasAtMost n none = Unit
  HasAtMost n (some entries) = length entries ≤ n

  serialize_scrape_response-Limited :
      (n : ℕ) (resp : ScrapeResponse)
      → length resp.scrape_entries ≤ n
      → Ensures (λ r. r.length ≤ 8 + n * 12) (serialize_scrape_response p resp)
  unfolding serialize_scrape_response
  serialize_scrape_response-Limited n resp h =
      let size = 8 + length resp.scrape_entries * 12 in
      Ensures-then (malloc_or_exit p 16) _ (λ header.
        Ensures-then (malloc_or_exit p size) _ (λ block.
          Ensures-then (or_fault out_of_bounds (write_scrape_response_data p.endian block resp)) _
            (λ b.
              let within : size ≤ 8 + n * 12 = omega arith in
              Ensures-pure (record { length = size; data_bytes = b }) within)))

  scrape_loop-Ensures :
      (n : ℕ) (config : Config) (info_hash : Bytes) (rounds i : ℕ) (entries : List TorrentStats)
      → rounds + length entries ≤ n
      → Ensures (HasAtMost n) (scrape_loop p config info_hash rounds i entries)
  unfolding scrape_loop
  scrape_loop-Ensures n config info_hash zero i entries h = Ensures-pure _ (omega arith)
  scrape_loop-Ensures n config info_hash (suc rounds) i entries h =
      Ensures-then (bytearray_to_hexarray p (slice (i * 20) 20 info_hash)) _ (λ hash.
        Ensures-then (info_hash_blacklisted p config hash) _ (λ blacklisted.
          Ensures-elim blacklisted _ _ (Ensures-pure none tt) (
            Ensures-then (entry_stats p config hash) _ (λ stats.
              scrape_loop-Ensures n config info_hash rounds (i + 1) (stats ∷ entries)
                (omega arith)))))

  scrape_response-Limited :
      (request : Request) (entries : Option (List TorrentStats))
      → HasAtMost 8 entries
      → Ensures (λ r. r.length ≤ 104) (scrape_response p request entries)
  unfolding scrape_response
  scrape_response-Limited request none h =
      Ensures-map (λ r k. omega arith)
        (send_error-Limited p 22 request (some blacklisted_text) (omega arith))
  scrape_response-Limited request (some entries) h =
      Ensures-map (λ r k. omega arith)
        (serialize_scrape_response-Limited 8 _ (omega (arith, length-reverse entries)))

  pub handle_scrape-Limited :
      HasBlocks p
      → (request : Request) (config : Config) (buff : Bytes) (buflen : ℕ)
      → Ensures (IfAny (λ r. r.length ≤ 104)) (handle_scrape p request config buff buflen)
  unfolding handle_scrape
  handle_scrape-Limited blocks request config buff buflen =
      Ensures-then (valid_request p config request buflen) _ (λ valid.
        Ensures-if valid _ _
          (Ensures-bind (λ b. length b ≡ 160) (stack_object p 160) _
            (stack_object-Ensures p blocks 160)
            (λ array size.
              Ensures-bind (λ (r : ScrapeRequest). r.info_hash_len ≤ 8)
                (or_fault out_of_bounds
                  (read_scrape_request_data p.target p.endian buff buflen array))
                _
                (Ensures-or_fault out_of_bounds _ (λ r e.
                  subst HasFew e
                    (read_scrape_request_data-HasFew p.target p.endian buff buflen array size)))
                (λ r few.
                  Ensures-bind (HasAtMost 8) (scrape_loop p config r.info_hash r.info_hash_len 0 [])
                    _ (scrape_loop-Ensures 8 config r.info_hash r.info_hash_len 0 [] (omega arith))
                    (λ entries h. some-Ensures _ _ (scrape_response-Limited request entries h)))))
          (Ensures-pure none tt))
