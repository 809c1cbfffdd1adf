-- ===== src/Net/Sizes.antt =====
-- What the writers of net.c leave in a block.
use bttracker.Common.{ℕ, ◌+◌, Option, none, some, List, [], ◌∷◌, All, All-append}
use bttracker.Memory.{Bytes, IsByte, Endian, store, hton}
use bttracker.Memory.Blocks.{IsArray, IsArrayIfAny, memcpy-IsArray}
use bttracker.Memory.Order.{store-IsByte}
use bttracker.ByteOrder.{Target}
use bttracker.Data.{
  Request, ConnectionResponse, AnnounceResponse, ScrapeResponse, TorrentStats, PeerAddr,
}
use bttracker.Net.{
  ◌>>=◌, write_connection_data, write_error_data, write_announce_response_data, write_peer,
  write_announce_peers, write_announce_peer_data, write_scrape_entries, stats_bytes,
  write_scrape_response_data,
}

abbrev pub HasBytes : ℕ → Option Bytes → Type 0
HasBytes n o = IsArrayIfAny n o

HasBytes-bind :
    (n : ℕ) (o : Option Bytes) (f : Bytes → Option Bytes)
    → HasBytes n o
    → ((b : Bytes) → IsArray n b → HasBytes n (f b))
    → HasBytes n (o >>= f)
HasBytes-bind n none f h k = tt
HasBytes-bind n (some b) f h k = k b h

stats-IsByte : (e : Endian) (entry : TorrentStats) → All IsByte (stats_bytes e entry)
unfolding stats_bytes
stats-IsByte e entry =
    All-append IsByte (store e 4 (hton e 4 entry.seeders)) _ (store-IsByte e 4 _) (
      All-append IsByte (store e 4 (hton e 4 entry.downloads)) _ (store-IsByte e 4 _)
        (store-IsByte e 4 _))

ruleset sizes = (HasBytes-bind, memcpy-IsArray, store-IsByte)

module _ (n : ℕ) (e : Endian) where
  pub HasBytes-connection :
      (t : Target) (b : Bytes) (resp : ConnectionResponse)
      → IsArray n b
      → HasBytes n (write_connection_data t e b resp)
  unfolding write_connection_data
  HasBytes-connection t b resp h = search (sizes) depth 12

  pub HasBytes-error :
      (b : Bytes) (req : Request) (msg : Bytes)
      → IsArray n b
      → All IsByte msg
      → HasBytes n (write_error_data e b req msg)
  unfolding write_error_data
  HasBytes-error b req msg h k = search (sizes) depth 12

  pub HasBytes-announce_response :
      (b : Bytes) (resp : AnnounceResponse)
      → IsArray n b
      → HasBytes n (write_announce_response_data e b resp)
  unfolding write_announce_response_data
  HasBytes-announce_response b resp h = search (sizes) depth 12

  HasBytes-peers :
      (b : Bytes) (npeer : ℕ) (peers : List PeerAddr)
      → IsArray n b
      → HasBytes n (write_announce_peers e b npeer peers)
  unfolding write_announce_peers write_peer
  HasBytes-peers b npeer [] h = h
  HasBytes-peers b npeer (peer ∷ peers) h =
      HasBytes-bind n (write_peer e b npeer peer)
        (λ b'. write_announce_peers e b' (npeer + 1) peers) (search (sizes))
        (λ b' h'. HasBytes-peers b' (npeer + 1) peers h')

  pub HasBytes-announce_peers :
      (b : Bytes) (peers : List PeerAddr)
      → IsArray n b
      → HasBytes n (write_announce_peer_data e b peers)
  unfolding write_announce_peer_data
  HasBytes-announce_peers b peers h = HasBytes-peers b 0 peers h

  HasBytes-entries :
      (b : Bytes) (nentry : ℕ) (entries : List TorrentStats)
      → IsArray n b
      → HasBytes n (write_scrape_entries e b nentry entries)
  unfolding write_scrape_entries
  HasBytes-entries b nentry [] h = h
  HasBytes-entries b nentry (entry ∷ entries) h =
      HasBytes-bind n _ (λ b'. write_scrape_entries e b' (nentry + 1) entries)
        (memcpy-IsArray n b _ _ h (stats-IsByte e entry))
        (λ b' h'. HasBytes-entries b' (nentry + 1) entries h')

  pub HasBytes-scrape_response :
      (b : Bytes) (resp : ScrapeResponse)
      → IsArray n b
      → HasBytes n (write_scrape_response_data e b resp)
  unfolding write_scrape_response_data
  HasBytes-scrape_response b resp h = search (sizes, HasBytes-entries) depth 12
