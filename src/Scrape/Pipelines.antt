-- ===== src/Scrape/Pipelines.antt =====
-- The replies of Redis that the answer to a scrape reads.
use bttracker.Common.{ℕ, zero, suc, ◌+◌, Option, none, some, List, [], ◌∷◌}
use bttracker.Memory.{Bytes}
use bttracker.Data.{Config, Request, ScrapeResponse, TorrentStats}
use bttracker.Platform.{Platform}
use bttracker.Platform.Pipelines.{HasPipeline}
use bttracker.Net.{read_scrape_request_data}
use bttracker.Exec.{or_fault, out_of_bounds}
use bttracker.Exec.Pipelines.{
  Leaves, Leaves-pure, Leaves-or_fault, Leaves-if, Leaves-elim, Leaves-then, malloc_or_exit-Leaves,
  malloc-Leaves, stack_object-Leaves,
}
use bttracker.Hex.Pipelines.{bytearray_to_hexarray-Leaves}
use bttracker.Redis.Pipelines.{info_hash_blacklisted-Leaves, get_torrent_stats-Leaves}
use bttracker.Handshake.Pipelines.{valid_request-Leaves}
use bttracker.ErrorReply.Pipelines.{send_error-Leaves}
use bttracker.Scrape.{
  blacklisted_text, serialize_scrape_response, entry_stats, scrape_loop, scrape_response,
  handle_scrape,
}

module _ (p : Platform) (pipe : HasPipeline p) (n : ℕ) where
  serialize_scrape_response-Leaves :
      (resp : ScrapeResponse) → Leaves pipe n n (serialize_scrape_response p resp)
  unfolding serialize_scrape_response
  serialize_scrape_response-Leaves resp =
      Leaves-then _ _ (malloc_or_exit-Leaves pipe n 16) (λ header.
        Leaves-then _ _ (malloc_or_exit-Leaves pipe n _)
          (λ block. Leaves-then _ _ (Leaves-or_fault n _ _) (λ resp. Leaves-pure n _)))

  entry_stats-Leaves :
      (config : Config) (hash : Bytes) → Leaves pipe n n (entry_stats p config hash)
  unfolding entry_stats
  entry_stats-Leaves config hash =
      Leaves-then _ _ (malloc-Leaves pipe n 12)
        (λ block. get_torrent_stats-Leaves p pipe n config hash _)

  scrape_loop-Leaves :
      (config : Config) (info_hash : Bytes) (rounds i : ℕ) (entries : List TorrentStats)
      → Leaves pipe n n (scrape_loop p config info_hash rounds i entries)
  unfolding scrape_loop
  scrape_loop-Leaves config info_hash zero i entries = Leaves-pure n (some entries)
  scrape_loop-Leaves config info_hash (suc rounds) i entries =
      Leaves-then _ _ (bytearray_to_hexarray-Leaves p pipe n _) (λ hash.
        Leaves-then _ _ (info_hash_blacklisted-Leaves p pipe n config hash) (λ blacklisted.
          Leaves-elim n n blacklisted _ _ (Leaves-pure n none) (
            Leaves-then _ _ (entry_stats-Leaves config hash)
              (λ stats. scrape_loop-Leaves config info_hash rounds (i + 1) (stats ∷ entries)))))

  scrape_response-Leaves :
      (request : Request) (entries : Option (List TorrentStats))
      → Leaves pipe n n (scrape_response p request entries)
  unfolding scrape_response
  scrape_response-Leaves request none = send_error-Leaves p pipe n request (some blacklisted_text)
  scrape_response-Leaves request (some entries) = serialize_scrape_response-Leaves _

  pub handle_scrape-Leaves :
      (request : Request) (config : Config) (buff : Bytes) (buflen : ℕ)
      → Leaves pipe n n (handle_scrape p request config buff buflen)
  unfolding handle_scrape
  handle_scrape-Leaves request config buff buflen =
      Leaves-then _ _ (valid_request-Leaves p pipe n config request buflen) (λ valid.
        Leaves-if n n valid _ _
          (Leaves-then _ _ (stack_object-Leaves pipe n 160) (λ array.
            Leaves-then
              (or_fault out_of_bounds
                (read_scrape_request_data p.target p.endian buff buflen array))
              _ (Leaves-or_fault n _ _)
              (λ scrape_request. Leaves-then _ _ (scrape_loop-Leaves config _ _ 0 []) (λ entries.
                Leaves-then _ _ (scrape_response-Leaves request entries)
                  (λ resp. Leaves-pure n (some resp))))))
          (Leaves-pure n none))
