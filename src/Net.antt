-- ===== src/Net.antt =====
-- src/net.c: the fields of a request in the receive buffer, and of a response in its block. A cast
-- of `buffer + k` reads the bytes from offset k on; every read ends before byte `recv_buflen`, the
-- size of the buffer. A writer returns the block, or `none` where a `memcpy` would leave it.
-- The writers' conversions of the caller's structures in place are seen by nobody else, since each
-- caller drops the structure: the model converts the values that are copied.
pub mod Fields
pub mod Requests
pub mod Responses
pub mod Scrapes
pub mod Sizes
pub mod Limits
pub mod Heads
pub mod Types
use bttracker.Common.{
  ℕ, suc, ◌+◌, ◌-◌, ◌*◌, ◌/◌, ◌%◌, ◌^◌, Option, none, some, List, [], ◌∷◌, ◌++◌, length, leb,
  if◌then◌else◌,
}
use bttracker.Memory.{Bytes, Endian, store, load, hton, slice, memcpy}
use bttracker.ByteOrder.{Target, htonll, ntohll}
use bttracker.Data.{
  Request, ConnectionResponse, AnnounceRequest, AnnounceResponse, ScrapeRequest, ScrapeResponse,
  TorrentStats, PeerAddr,
}

infixl 5 ◌>>=◌
abbrev pub ◌>>=◌ {ℓ κ} : {A : Type ℓ} {B : Type κ} → Option A → (A → Option B) → Option B
none >>= f = none
some a >>= f = f a

module _ (t : Target) (e : Endian) where
  pub read_request_data : Bytes → Request
  read_request_data buffer = record {
    connection_id = ntohll t e (load e (slice 0 8 buffer));
    action = hton e 4 (load e (slice 8 4 buffer));
    transaction_id = hton e 4 (load e (slice 12 4 buffer));
  }

  unfoldable pub read_announce_request_data : Bytes → AnnounceRequest
  read_announce_request_data buffer = record {
    info_hash = slice 16 20 buffer;
    peer_id = slice 36 20 buffer;
    connection_id = ntohll t e (load e (slice 0 8 buffer));
    action = hton e 4 (load e (slice 8 4 buffer));
    transaction_id = hton e 4 (load e (slice 12 4 buffer));
    downloaded = ntohll t e (load e (slice 56 8 buffer));
    left = ntohll t e (load e (slice 64 8 buffer));
    uploaded = ntohll t e (load e (slice 72 8 buffer));
    event = hton e 4 (load e (slice 80 4 buffer));
    ipv4_addr = hton e 4 (load e (slice 84 4 buffer));
    key = hton e 4 (load e (slice 88 4 buffer));
    num_want = hton e 4 (load e (slice 92 4 buffer));
    port = hton e 2 (load e (slice 96 2 buffer));
  }

  -- `buflen - 16` as a `size_t`, and the copy into the array `info_hash`, whose bytes on the stack
  -- are `array`: `int8_t *info_hash[20]` has 160 bytes where a pointer has 8.
  pub read_scrape_request_data : Bytes → ℕ → Bytes → Option ScrapeRequest
  read_scrape_request_data buffer buflen array = do
    let copied = (buflen + 2 ^ 64 - 16) % 2 ^ 64
    hashes ← if leb copied (length array) then memcpy array 0 (slice 16 copied buffer) else none
    some (record {
      connection_id = ntohll t e (load e (slice 0 8 buffer));
      action = hton e 4 (load e (slice 8 4 buffer));
      transaction_id = hton e 4 (load e (slice 12 4 buffer));
      info_hash_len = copied / 20;
      info_hash = hashes;
    })

  pub write_connection_data : Bytes → ConnectionResponse → Option Bytes
  write_connection_data resp_buffer resp = do
    b ← memcpy resp_buffer 0 (store e 4 (hton e 4 resp.action))
    b ← memcpy b 4 (store e 4 (hton e 4 resp.transaction_id))
    b ← memcpy b 8 (store e 8 (htonll t e resp.connection_id))
    some b

-- `msg` is the text with its terminating zero byte, `strlen(msg) + 1` bytes.
module _ (e : Endian) where
  pub write_error_data : Bytes → Request → Bytes → Option Bytes
  write_error_data resp_buffer req msg = do
    b ← memcpy resp_buffer 0 (store e 4 (hton e 4 req.action))
    b ← memcpy b 4 (store e 4 (hton e 4 req.transaction_id))
    b ← memcpy b 8 msg
    some b

  pub write_announce_response_data : Bytes → AnnounceResponse → Option Bytes
  write_announce_response_data resp_buffer resp = do
    b ← memcpy resp_buffer 0 (store e 4 (hton e 4 resp.action))
    b ← memcpy b 4 (store e 4 (hton e 4 resp.transaction_id))
    b ← memcpy b 8 (store e 4 (hton e 4 resp.interval))
    b ← memcpy b 12 (store e 4 (hton e 4 resp.leechers))
    b ← memcpy b 16 (store e 4 (hton e 4 resp.seeders))
    some b

  pub write_peer : Bytes → ℕ → PeerAddr → Option Bytes
  write_peer b npeer peer = do
    b ← memcpy b (20 + 6 * npeer) (store e 4 (hton e 4 peer.ipv4_addr))
    b ← memcpy b (24 + 6 * npeer) (store e 2 (hton e 2 peer.port))
    some b

  -- The loop over the list from the `npeer`-th peer on.
  pub write_announce_peers : Bytes → ℕ → List PeerAddr → Option Bytes
  unfolding write_peer
  write_announce_peers b npeer [] = some b
  write_announce_peers b npeer (peer ∷ peers) =
      write_peer b npeer peer >>= λ b'. write_announce_peers b' (npeer + 1) peers

  pub write_announce_peer_data : Bytes → List PeerAddr → Option Bytes
  unfolding write_announce_peers
  write_announce_peer_data resp_buffer peers = write_announce_peers resp_buffer 0 peers

  -- The structure in memory: its three fields in the order of their declaration.
  pub stats_bytes : TorrentStats → Bytes
  stats_bytes entry =
      store e 4 (hton e 4 entry.seeders)
      ++ (store e 4 (hton e 4 entry.downloads) ++ store e 4 (hton e 4 entry.leechers))

  pub write_scrape_entries : Bytes → ℕ → List TorrentStats → Option Bytes
  unfolding stats_bytes
  write_scrape_entries b nentry [] = some b
  write_scrape_entries b nentry (entry ∷ entries) =
      memcpy b (8 + 12 * nentry) (stats_bytes entry) >>= λ b'.
      write_scrape_entries b' (nentry + 1) entries

  pub write_scrape_response_data : Bytes → ScrapeResponse → Option Bytes
  unfolding write_scrape_entries
  write_scrape_response_data resp_buffer resp = do
    b ← memcpy resp_buffer 0 (store e 4 (hton e 4 resp.action))
    b ← memcpy b 4 (store e 4 (hton e 4 resp.transaction_id))
    write_scrape_entries b 0 resp.scrape_entries
