-- ===== src/Net/Responses.antt =====
-- The writers of net.c against the layouts of BEP 15: a block of the response's size ends up as the
-- fields of the response in network order.
use bttracker.Common.{
  ℕ, ◌+◌, ◌*◌, ◌≤◌, ◌≡◌, refl, ◌∙◌, arith, Option, none, some, List, [], ◌∷◌, ◌++◌, append-nil,
  length, drop,
}
use mathlib.Core.Path.{fun_ext}
use bttracker.Memory.{Bytes, Endian}
use bttracker.Memory.Order.{length-to_be, store-hton}
use bttracker.ByteOrder.{Target, IsSupported}
use bttracker.ByteOrder.Macros.{htonll-eq-hton}
use bttracker.Data.{
  Request, ConnectionResponse, AnnounceResponse, ScrapeResponse, TorrentStats, PeerAddr,
}
use bttracker.Net.{
  ◌>>=◌, write_connection_data, write_error_data, write_announce_response_data,
  write_announce_peers, write_announce_peer_data, write_scrape_entries, write_scrape_response_data,
}
use bttracker.Net.Fields.{
  Fields, num, to_packet, width, IsSized, write_fields, write_fields_whole, write_fields-append,
  length-to_packet, drop-length,
}

abbrev pub connection_fields : ConnectionResponse → Fields
connection_fields resp =
    num 4 resp.action ∷ num 4 resp.transaction_id ∷ num 8 resp.connection_id ∷ []

abbrev pub error_fields : Request → Bytes → Fields
error_fields req msg = num 4 req.action ∷ num 4 req.transaction_id ∷ (length msg, msg) ∷ []

abbrev pub announce_response_fields : AnnounceResponse → Fields
announce_response_fields resp =
    num 4 resp.action
    ∷ num 4 resp.transaction_id
    ∷ num 4 resp.interval
    ∷ num 4 resp.leechers
    ∷ num 4 resp.seeders
    ∷ []

abbrev pub peer_fields : List PeerAddr → Fields
peer_fields [] = []
peer_fields (p ∷ ps) = num 4 p.ipv4_addr ∷ num 2 p.port ∷ peer_fields ps

abbrev pub stats_fields : List TorrentStats → Fields
stats_fields [] = []
stats_fields (s ∷ ss) =
    (12, to_packet (num 4 s.seeders ∷ num 4 s.downloads ∷ num 4 s.leechers ∷ [])) ∷ stats_fields ss

abbrev pub scrape_response_fields : ScrapeResponse → Fields
scrape_response_fields resp =
    num 4 resp.action ∷ num 4 resp.transaction_id ∷ stats_fields resp.scrape_entries

pub peer_fields-IsSized : (ps : List PeerAddr) → IsSized (peer_fields ps)
peer_fields-IsSized [] = tt
peer_fields-IsSized (p ∷ ps) =
    (length-to_be 4 p.ipv4_addr, (length-to_be 2 p.port, peer_fields-IsSized ps))

pub width-peer_fields : (ps : List PeerAddr) → width (peer_fields ps) ≡ 6 * length ps
width-peer_fields [] = refl
width-peer_fields (p ∷ ps) = omega (arith, width-peer_fields ps)

stats_fields-IsSized : (ss : List TorrentStats) → IsSized (stats_fields ss)
stats_fields-IsSized [] = tt
stats_fields-IsSized (s ∷ ss) = (
  length-to_packet (num 4 s.seeders ∷ num 4 s.downloads ∷ num 4 s.leechers ∷ [])
      (length-to_be 4 s.seeders, (length-to_be 4 s.downloads, (length-to_be 4 s.leechers, tt))),
  stats_fields-IsSized ss,
)

width-stats_fields : (ss : List TorrentStats) → width (stats_fields ss) ≡ 12 * length ss
width-stats_fields [] = refl
width-stats_fields (s ∷ ss) = omega (arith, width-stats_fields ss)

pub announce_response-IsSized : (resp : AnnounceResponse) → IsSized (announce_response_fields resp)
announce_response-IsSized resp = (
  length-to_be 4 resp.action,
  (
    length-to_be 4 resp.transaction_id,
    (
      length-to_be 4 resp.interval,
      (length-to_be 4 resp.leechers, (length-to_be 4 resp.seeders, tt)),
    ),
  ),
)

>>=_assoc {ℓ} :
    {A B C : Type ℓ} (m : Option A) (f : A → Option B) (g : B → Option C)
    → ((m >>= f) >>= g) ≡ (m >>= λ a. f a >>= g)
>>=_assoc none f g = refl
>>=_assoc (some a) f g = refl

pub connection_data-fields :
    (t : Target) (e : Endian) (b : Bytes) (resp : ConnectionResponse)
    → IsSupported t e
    → length b ≡ 16
    → write_connection_data t e b resp ≡ some (to_packet (connection_fields resp))
unfolding write_connection_data
connection_data-fields t e b resp ok h =
    simp (htonll-eq-hton t e ok, store-hton)
      (write_fields_whole b (connection_fields resp)
        (
          length-to_be 4 resp.action,
          (length-to_be 4 resp.transaction_id, (length-to_be 8 resp.connection_id, tt)),
        )
        h)

module _ (e : Endian) where
  -- The message follows the header, and the rest of the block keeps its old bytes.
  pub error_data-fields :
      (b : Bytes) (req : Request) (msg : Bytes)
      → 8 + length msg ≤ length b
      → write_error_data e b req msg
        ≡ some (to_packet (error_fields req msg) ++ drop (8 + length msg) b)
  unfolding write_error_data
  error_data-fields b req msg h =
      let w : 4 + (4 + (length msg + 0)) ≡ 8 + length msg = omega arith in
      simp store-hton (
        write_fields-append [] b 0 (error_fields req msg)
          (length-to_be 4 req.action, (length-to_be 4 req.transaction_id, (refl, tt))) refl
          (omega arith)
        ∙ rw w)

  pub announce_response-fields :
      (b : Bytes) (resp : AnnounceResponse)
      → 20 ≤ length b
      → write_announce_response_data e b resp
        ≡ some (to_packet (announce_response_fields resp) ++ drop 20 b)
  unfolding write_announce_response_data
  announce_response-fields b resp h = simp store-hton (
      write_fields-append [] b 0 (announce_response_fields resp) (announce_response-IsSized resp)
        refl (omega arith))

  -- The loop over the peers writes their fields, six bytes a peer.
  peers-fields :
      (b : Bytes) (npeer : ℕ) (peers : List PeerAddr)
      → write_announce_peers e b npeer peers ≡ write_fields b (20 + 6 * npeer) (peer_fields peers)
  unfolding write_announce_peers
  peers-fields b npeer [] = refl
  peers-fields b npeer (p ∷ ps) =
      let port : 20 + 6 * npeer + 4 ≡ 24 + 6 * npeer = omega arith in
      let more : 24 + 6 * npeer + 2 ≡ 20 + 6 * (npeer + 1) = omega arith in
      rw (port, more)
        (simp (store-hton, >>=_assoc)
          (rw (fun_ext (λ (b' : Bytes). peers-fields b' (npeer + 1) ps))))

  -- The loop over the entries writes their fields, twelve bytes an entry.
  stats-fields :
      (b : Bytes) (nentry : ℕ) (entries : List TorrentStats)
      → write_scrape_entries e b nentry entries
        ≡ write_fields b (8 + 12 * nentry) (stats_fields entries)
  unfolding write_scrape_entries
  stats-fields b nentry [] = refl
  stats-fields b nentry (s ∷ ss) =
      let more : 8 + 12 * nentry + 12 ≡ 8 + 12 * (nentry + 1) = omega arith in
      rw (more, fun_ext (λ (b' : Bytes). stats-fields b' (nentry + 1) ss))
        (simp (store-hton, append-nil))

  -- Over a header that is in place, the peers fill the rest of the block.
  pub announce_peers-fields :
      (head rest : Bytes) (peers : List PeerAddr)
      → 20 ≡ length head
      → length rest ≡ 6 * length peers
      → write_announce_peer_data e (head ++ rest) peers
        ≡ some (head ++ to_packet (peer_fields peers))
  unfolding write_announce_peer_data
  announce_peers-fields head rest peers h k =
      peers-fields (head ++ rest) 0 peers
      ∙ write_fields-append head rest 20 (peer_fields peers) (peer_fields-IsSized peers) h
          (omega (arith, width-peer_fields peers))
      ∙ rw (width-peer_fields, ← k, drop-length, append-nil)

  -- A block of the response's size holds the header and twelve bytes an entry.
  pub scrape_response-fields :
      (b : Bytes) (resp : ScrapeResponse)
      → length b ≡ 8 + 12 * length resp.scrape_entries
      → write_scrape_response_data e b resp ≡ some (to_packet (scrape_response_fields resp))
  unfolding write_scrape_response_data
  scrape_response-fields b resp h =
      rw (fun_ext (λ (b' : Bytes). stats-fields b' 0 resp.scrape_entries)) (
        simp store-hton (
          write_fields_whole b (scrape_response_fields resp)
            (
              length-to_be 4 resp.action,
              (length-to_be 4 resp.transaction_id, stats_fields-IsSized resp.scrape_entries),
            )
            (omega (arith, h, width-stats_fields resp.scrape_entries))))
