-- ===== src/Announce.antt =====
-- src/announce.c: a peer announces itself to the swarm of a torrent and is told of other peers.
pub mod Updates
pub mod Wanted
pub mod Histories
pub mod Orders
pub mod Isolation
pub mod Layout
pub mod Whole
pub mod Gathers
pub mod Answers
pub mod Logs
pub mod Pipelines
pub mod Limits
pub mod Echoes
use bttracker.Common.{
  ℕ, ◌+◌, ◌-◌, ◌*◌, ◌%◌, ◌^◌, Bool, true, false, not, ◌&&◌, ◌||◌, Option, none, some, List, [], ◌∷◌,
  ◌++◌, length, ltb, ◌==◌, if◌then◌else◌,
}
use bttracker.Memory.{Bytes, load, hton, is_negative32}
use bttracker.Data.{
  Config, Request, AnnounceRequest, AnnounceResponse, ResponseBuffer, PeerAddr, TorrentStats,
  event_none, event_completed, event_started, event_stopped,
}
use bttracker.Net.{
  read_announce_request_data, write_announce_response_data, write_announce_peer_data,
}
use bttracker.Platform.{Platform}
use bttracker.Exec.{
  M, ◌>>=◌, ◌>>◌, pure, or_fault, out_of_bounds, malloc_or_exit, malloc_unchecked, stack_object,
}
use bttracker.Hex.{bytearray_to_hexarray}
use bttracker.Redis.{info_hash_blacklisted, get_torrent_stats}
use bttracker.Peers.{new_peer, insert_peer, remove_peer, promote_peer, peer_list}
use bttracker.Handshake.{valid_request}
use bttracker.ErrorReply.{send_error}
use bttracker.Scrape.{stats_of_bytes, blacklisted_text}

-- `num_want < 0 || num_want > max ? max : num_want`, on the bit pattern of an `int32_t`.
pub clamp_num_want : ℕ → ℕ → ℕ
unfolding is_negative32
clamp_num_want num_want max_numwant =
    if is_negative32 num_want || ltb max_numwant num_want then max_numwant else num_want

module _ (p : Platform) where
  -- `client_addr` has the four bytes of `sin_addr.s_addr`.
  pub update_peer_list : Config → AnnounceRequest → Bytes → Bytes → Bool → M p (Unit {0})
  update_peer_list config announce_request client_addr info_hash_str is_seeder =
      let peer_id = announce_request.peer_id in
      if announce_request.event == event_stopped
      then remove_peer p config info_hash_str peer_id is_seeder
      else if announce_request.event == event_completed
      then promote_peer p config info_hash_str peer_id
      else if announce_request.event == event_none || announce_request.event == event_started
      then (do
        peer ← new_peer p announce_request (hton p.endian 4 (load p.endian client_addr))
        insert_peer p config info_hash_str peer_id peer is_seeder)
      else pure tt

  pub serialize_announce_response : AnnounceResponse → ℕ → List PeerAddr → M p ResponseBuffer
  serialize_announce_response response_data peer_count peers = do
    let resp_length = 20 + peer_count * 6
    malloc_or_exit p 16
    block ← malloc_unchecked p resp_length
    head ← or_fault out_of_bounds (write_announce_response_data p.endian block response_data)
    resp ← or_fault out_of_bounds (write_announce_peer_data p.endian head peers)
    pure (record { length = resp_length; data_bytes = resp })

  -- The peers of the other kind, and peers of the same kind if there are too few.
  pub gather_peers : Config → Bytes → ℕ → Bool → M p (List PeerAddr × ℕ)
  gather_peers config info_hash_str num_want is_seeder = do
    (peers, peer_count) ← peer_list p config info_hash_str num_want 0 (not is_seeder)
    if ltb peer_count num_want
        then (do
          (complement, complement_count) ←
              peer_list p config info_hash_str (num_want - peer_count) 0 is_seeder
          pure (
              if ltb 0 (length complement) && ltb 0 complement_count
              then (peers ++ complement, peer_count + complement_count)
              else (peers, peer_count)))
        else pure (peers, peer_count)

  -- The part of the handler behind the blacklist.
  pub answer_announce : Request → Config → AnnounceRequest → Bytes → Bytes → M p ResponseBuffer
  answer_announce request config announce_request client_addr info_hash_str = do
    let is_seeder = announce_request.left == 0
    update_peer_list config announce_request client_addr info_hash_str is_seeder
    let num_want = clamp_num_want announce_request.num_want config.announce_max_numwant
    (peers, peer_count) ← gather_peers config info_hash_str num_want is_seeder
    object ← stack_object p 12
    stats ← get_torrent_stats p config info_hash_str (some (stats_of_bytes p object))
    serialize_announce_response
        (record {
          action = request.action;
          transaction_id = request.transaction_id;
          interval = config.announce_wait_time;
          leechers = stats.leechers;
          seeders = stats.seeders;
        })
        peer_count peers

  pub handle_announce : Request → Config → Bytes → ℕ → Bytes → M p (Option ResponseBuffer)
  unfolding answer_announce
  handle_announce request config buff buflen client_addr = do
    valid ← valid_request p config request buflen
    if valid
        then (do
          let announce_request = read_announce_request_data p.target p.endian buff
          info_hash_str ← bytearray_to_hexarray p announce_request.info_hash
          blacklisted ← info_hash_blacklisted p config info_hash_str
          resp ←
              if blacklisted
              then send_error p request (some blacklisted_text)
              else answer_announce request config announce_request client_addr info_hash_str
          pure (some resp))
        else pure none
