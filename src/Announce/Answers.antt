-- ===== src/Announce/Answers.antt =====
-- The answer to an announce: the whole handler on its two ways out.
use bttracker.Common.{ℕ, ◌+◌, ◌*◌, ◌<◌, ◌^◌, ◌%◌, ◌≡◌, true, false, some, List, ◌++◌, length, ◌==◌}
use bttracker.Memory.{Bytes}
use bttracker.Data.{
  Config, Request, AnnounceRequest, AnnounceResponse, ResponseBuffer, PeerAddr, TorrentStats,
  action_error,
}
use bttracker.Net.{read_announce_request_data}
use bttracker.Net.Fields.{to_packet}
use bttracker.Net.Responses.{announce_response_fields, peer_fields, error_fields}
use bttracker.Platform.{Platform, World, Reply}
use bttracker.Platform.Laws.{HasMemory}
use bttracker.Platform.Stores.{IsStore}
use bttracker.Exec.{Outcome, done, stack_object}
use bttracker.Hex.Runs.{bytearray_to_hexarray-done}
use bttracker.Hex.{hex_digits, bytearray_to_hexarray}
use bttracker.Redis.{download_count, info_hash_blacklisted, get_torrent_stats}
use bttracker.Redis.Stats.{get_torrent_stats-counts, reply1, reply2, reply3}
use bttracker.Handshake.{valid_request}
use bttracker.ErrorReply.Layout.{send_error_layout, redis-send_error}
use bttracker.Scrape.{stats_of_bytes, blacklisted_text}
use bttracker.Announce.{
  clamp_num_want, update_peer_list, gather_peers, answer_announce, handle_announce,
}
use bttracker.Announce.Updates.{update_peer_list-announce}
use bttracker.Announce.Layout.{serialize_announce_response-done}

module _ (p : Platform) (memory : HasMemory p) (config : Config) (request : Request) where
  -- The text of the hash that the packet names, and the worlds in which Redis is asked for it and in
  -- which the swarm is updated.
  abbrev pub announced_text : Bytes → Bytes
  announced_text buff = hex_digits (read_announce_request_data p.target p.endian buff).info_hash

  abbrev pub checked : Bytes → ℕ → World p → World p
  checked buff buflen w =
      (bytearray_to_hexarray p (read_announce_request_data p.target p.endian buff).info_hash
        (valid_request p config request buflen w).1).1

  abbrev pub allowed : Bytes → ℕ → World p → World p
  allowed buff buflen w =
      (info_hash_blacklisted p config (announced_text buff) (checked buff buflen w)).1

  -- With memory, an announce that passes the checks, for a torrent that is refused, is answered
  -- with the error packet and 56 more bytes, and no command follows the one that asked for the
  -- torrent.
  pub handle_announce_refused :
      (buff : Bytes) (buflen : ℕ) (client_addr : Bytes) (w : World p)
      → (valid_request p config request buflen w).0 ≡ done true
      → (info_hash_blacklisted p config (announced_text buff) (checked buff buflen w)).0 ≡ done true
      → (junk : Bytes) × (length junk ≡ 56)
        × ((handle_announce p request config buff buflen client_addr w).0
            ≡ done (
                some (record {
                  length = 64 + length blacklisted_text;
                  data_bytes =
                      to_packet
                        (error_fields (record request { action = action_error }) blacklisted_text)
                      ++ junk;
                })))
        × ((handle_announce p request config buff buflen client_addr w).1.redis
            ≡ (allowed buff buflen w).redis)
  unfolding handle_announce
  handle_announce_refused buff buflen client_addr w valid refuses =
      let announce_request = read_announce_request_data p.target p.endian buff in
      let hexed =
        bytearray_to_hexarray-done p memory announce_request.info_hash
          (valid_request p config request buflen w).1 in
      let (junk, size, sent) =
        send_error_layout p memory request (allowed buff buflen w) blacklisted_text in
      (
        junk,
        size,
        rw (valid, hexed, refuses) (rw sent),
        rw (valid, hexed, refuses)
            (rw sent (redis-send_error p memory request (allowed buff buflen w) blacklisted_text)),
      )

module _ (p : Platform) (memory : HasMemory p) (store : IsStore p) (config : Config)
    (prefix : Bytes) (has_prefix : config.redis_key_prefix ≡ some prefix)
    (positive : 0 < config.announce_peer_ttl) (bounded : config.announce_peer_ttl < 2 ^ 31)
    (request : Request) where
  -- The response that lists `peers`.
  abbrev pub announce_answer : TorrentStats → List PeerAddr → ResponseBuffer
  announce_answer stats peers = record {
    length = 20 + length peers * 6;
    data_bytes =
        to_packet (
          announce_response_fields (record {
            action = request.action;
            transaction_id = request.transaction_id;
            interval = config.announce_wait_time;
            leechers = stats.leechers;
            seeders = stats.seeders;
          }))
        ++ to_packet (peer_fields peers);
  }

  -- The world after the requesting peer was updated.
  abbrev pub updated : AnnounceRequest → Bytes → Bytes → World p → World p
  updated announce_request client_addr hash w =
      (update_peer_list p config announce_request client_addr hash (announce_request.left == 0) w).1

  -- What gathering the peers does after that.
  abbrev pub gathering :
      AnnounceRequest → Bytes → Bytes → World p → Outcome (List PeerAddr × ℕ) × World p
  gathering announce_request client_addr hash w =
      gather_peers p config hash
        (clamp_num_want announce_request.num_want config.announce_max_numwant)
        (announce_request.left == 0) (updated announce_request client_addr hash w)

  -- The three replies that the statistics are read from come.
  abbrev pub Counted : Bytes → World p → Reply → Reply → Reply → Type 0
  Counted hash w r1 r2 r3 =
      ((reply1 p config prefix has_prefix hash w).0 ≡ some r1)
      × ((reply2 p config prefix has_prefix hash w).0 ≡ some r2)
      × ((reply3 p config prefix has_prefix hash w).0 ≡ some r3)

  abbrev pub counts : Reply → Reply → Reply → TorrentStats
  counts r1 r2 r3 = record {
    seeders = length r1.element % 2 ^ 32;
    downloads = download_count r3;
    leechers = length r2.element % 2 ^ 32;
  }

  answer_announce-done :
      (announce_request : AnnounceRequest) (client_addr hash : Bytes) (peers : List PeerAddr)
      (r1 r2 r3 : Reply) (w : World p)
      → (gathering announce_request client_addr hash w).0 ≡ done (peers, length peers)
      → Counted hash (gathering announce_request client_addr hash w).1 r1 r2 r3
      → (answer_announce p request config announce_request client_addr hash w).0
        ≡ done (announce_answer (counts r1 r2 r3) peers)
  unfolding answer_announce stack_object
  answer_announce-done announce_request client_addr hash peers r1 r2 r3 w gathered (a, b, c) =
      let is_seeder = announce_request.left == 0 in
      let w2 = (gathering announce_request client_addr hash w).1 in
      let w3 : World p = record w2 { heap = (p.stack 12 w2.heap).1 } in
      let before = stats_of_bytes p (p.stack 12 w2.heap).0 in
      let stats = counts r1 r2 r3 in
      let w4 = (get_torrent_stats p config hash (some before) w3).1 in
      let response : AnnounceResponse = record {
        action = request.action;
        transaction_id = request.transaction_id;
        interval = config.announce_wait_time;
        leechers = stats.leechers;
        seeders = stats.seeders;
      } in
      rw
        (
          (update_peer_list-announce p memory store config prefix has_prefix positive bounded
              announce_request client_addr hash is_seeder w).0,
          gathered,
          get_torrent_stats-counts p config prefix has_prefix hash w3 before r1 r2 r3 a b c,
        )
        (serialize_announce_response-done p response peers
          (record w3 { redis = (reply3 p config prefix has_prefix hash w3).1 }) memory).0

  -- With memory, a store that behaves as documented, a key prefix, and a time to live that is
  -- positive and below 2 ^ 31: an announce that passes the checks, for a torrent that is not
  -- refused, where the peers could be gathered after the requesting peer was updated and the three
  -- replies that the statistics are read from come, is answered with the action and the transaction
  -- of the request, the configured interval, the number of keys of the second reply as the leechers
  -- and of the first as the seeders, and those peers, six bytes each.
  pub handle_announce-answer :
      (buff : Bytes) (buflen : ℕ) (client_addr : Bytes) (peers : List PeerAddr) (r1 r2 r3 : Reply)
      (w : World p)
      → (valid_request p config request buflen w).0 ≡ done true
      → (info_hash_blacklisted p config
          (announced_text p memory config request buff)
          (checked p memory config request buff buflen w)).0
        ≡ done false
      → (gathering
          (read_announce_request_data p.target p.endian buff)
          client_addr
          (announced_text p memory config request buff)
          (allowed p memory config request buff buflen w)).0
        ≡ done (peers, length peers)
      → Counted
          (announced_text p memory config request buff)
          (gathering
            (read_announce_request_data p.target p.endian buff)
            client_addr
            (announced_text p memory config request buff)
            (allowed p memory config request buff buflen w)).1
          r1
          r2
          r3
      → (handle_announce p request config buff buflen client_addr w).0
        ≡ done (some (announce_answer (counts r1 r2 r3) peers))
  unfolding handle_announce
  handle_announce-answer buff buflen client_addr peers r1 r2 r3 w valid allows gathered counted =
      let announce_request = read_announce_request_data p.target p.endian buff in
      let hexed =
        bytearray_to_hexarray-done p memory announce_request.info_hash
          (valid_request p config request buflen w).1 in
      let ends =
        answer_announce-done announce_request client_addr
          (announced_text p memory config request buff) peers r1 r2 r3
          (allowed p memory config request buff buflen w) gathered counted in
      rw (valid, hexed, allows) (rw ends)
