-- ===== src/Scrape.antt =====
-- src/scrape.c: the statistics of the torrents that a client asks for.
pub mod Layout
pub mod Whole
pub mod Returns
pub mod Pipelines
pub mod Limits
pub mod Echoes
pub mod Reference
use bttracker.Common.{
  ℕ, zero, suc, ◌+◌, ◌*◌, ◌%◌, ◌^◌, Bool, Option, none, some, List, [], ◌∷◌, reverse, length, ◌++◌,
  true, false, if◌then◌else◌,
}
use bttracker.Memory.{Bytes, load, slice}
use bttracker.Text.{codes}
use bttracker.Data.{Config, Request, TorrentStats, ScrapeResponse, ResponseBuffer}
use bttracker.Net.{read_scrape_request_data, write_scrape_response_data}
use bttracker.Platform.{Platform}
use bttracker.Exec.{
  M, ◌>>=◌, ◌>>◌, pure, or_fault, out_of_bounds, malloc, malloc_or_exit, stack_object,
}
use bttracker.Hex.{bytearray_to_hexarray}
use bttracker.Redis.{info_hash_blacklisted, get_torrent_stats}
use bttracker.Handshake.{valid_request}
use bttracker.ErrorReply.{send_error}

-- A structure of statistics in memory that nothing has been written to.
pub stats_of_bytes : Platform → Bytes → TorrentStats
stats_of_bytes p object = record {
  seeders = load p.endian (slice 0 4 object);
  downloads = load p.endian (slice 4 4 object);
  leechers = load p.endian (slice 8 4 object);
}

-- The structure behind the pointer that `malloc` gives, if it is not NULL.
pub pointed_stats : Platform → Option Bytes → Option TorrentStats
unfolding stats_of_bytes
pointed_stats p none = none
pointed_stats p (some block) = some (stats_of_bytes p block)

-- "Blacklisted info hash" with its zero byte.
abbrev pub blacklisted_text : Bytes
blacklisted_text = codes "Blacklisted info hash" ++ (0 ∷ [])

module _ (p : Platform) where
  -- The count of entries is an `int`.
  pub serialize_scrape_response : ScrapeResponse → M p ResponseBuffer
  serialize_scrape_response response_data = do
    let num_entries = length response_data.scrape_entries
    let resp_length = 8 + num_entries * 12
    malloc_or_exit p 16
    block ← malloc_or_exit p resp_length
    resp ← or_fault out_of_bounds (write_scrape_response_data p.endian block response_data)
    pure (record { length = resp_length; data_bytes = resp })

  -- The statistics of one torrent, in a new structure. The pointer is not tested.
  pub entry_stats : Config → Bytes → M p TorrentStats
  unfolding pointed_stats
  entry_stats config info_hash_str = do
    block ← malloc p 12
    get_torrent_stats p config info_hash_str (pointed_stats p block)

  -- The loop over the hashes from the `i`-th on, with `rounds` to come; the result is the list that
  -- the loop builds front first, or `none` when it meets a blacklisted hash. The array holds eight
  -- hashes, so the counter of 8 bits does not wrap.
  pub scrape_loop : Config → Bytes → ℕ → ℕ → List TorrentStats → M p (Option (List TorrentStats))
  unfolding entry_stats
  scrape_loop config info_hash zero i scrape_entries = pure (some scrape_entries)
  scrape_loop config info_hash (suc rounds) i scrape_entries = do
    info_hash_str ← bytearray_to_hexarray p (slice (i * 20) 20 info_hash)
    blacklisted ← info_hash_blacklisted p config info_hash_str
    elim blacklisted [
      | true ↦ pure none
      | false ↦ do
        stats ← entry_stats config info_hash_str
        scrape_loop config info_hash rounds (i + 1) (stats ∷ scrape_entries)
    ]

  pub scrape_response : Request → Option (List TorrentStats) → M p ResponseBuffer
  scrape_response request none = send_error p request (some blacklisted_text)
  scrape_response request (some scrape_entries) = serialize_scrape_response (record {
    action = request.action;
    transaction_id = request.transaction_id;
    scrape_entries = reverse scrape_entries;
  })

  pub handle_scrape : Request → Config → Bytes → ℕ → M p (Option ResponseBuffer)
  unfolding scrape_response
  handle_scrape request config buff buflen = do
    valid ← valid_request p config request buflen
    if valid
        then (do
          array ← stack_object p 160
          scrape_request ←
              or_fault out_of_bounds (read_scrape_request_data p.target p.endian buff buflen array)
          entries ← scrape_loop config scrape_request.info_hash scrape_request.info_hash_len 0 []
          resp ← scrape_response request entries
          pure (some resp))
        else pure none
