-- ===== src/Announce/Echoes.antt =====
-- What the response to an announce begins with.
use bttracker.Common.{ℕ, ◌+◌, ◌*◌, none, List, ◌==◌, inl, inr, some}
use bttracker.Memory.{Bytes}
use bttracker.Data.{Config, Request, AnnounceRequest, AnnounceResponse, PeerAddr}
use bttracker.Net.{read_announce_request_data, write_announce_response_data}
use bttracker.Net.Heads.{IsHeaded, head, announce_response-IsHeaded, announce_peers-IsHeaded}
use bttracker.Platform.{Platform}
use bttracker.Exec.{or_fault, out_of_bounds, malloc_or_exit, malloc_unchecked, stack_object}
use bttracker.Exec.Posts.{
  Ensures, Ensures-pure, Ensures-if, Ensures-map, Ensures-bind, Ensures-then,
}
use bttracker.Exec.Responses.{IfAny, some-Ensures}
use bttracker.Exec.Echoes.{Begins, IsReplyTo, IsHeaded-Ensures, Begins-Ensures}
use bttracker.Hex.{bytearray_to_hexarray}
use bttracker.Redis.{info_hash_blacklisted, get_torrent_stats}
use bttracker.Handshake.{valid_request}
use bttracker.Scrape.{stats_of_bytes}
use bttracker.ErrorReply.Echoes.{send_error-Begins}
use bttracker.Announce.{
  clamp_num_want, update_peer_list, gather_peers, serialize_announce_response, answer_announce,
  handle_announce,
}

module _ (p : Platform) where
  serialize_announce_response-Begins :
      (resp : AnnounceResponse) (peer_count : ℕ) (peers : List PeerAddr)
      → Ensures
          (Begins (head resp.action resp.transaction_id))
          (serialize_announce_response p resp peer_count peers)
  unfolding serialize_announce_response
  serialize_announce_response-Begins resp peer_count peers =
      let hd = head resp.action resp.transaction_id in
      Ensures-then (malloc_or_exit p 16) _ (λ header.
        Ensures-then (malloc_unchecked p (20 + peer_count * 6)) _ (λ block.
          Ensures-bind (IsHeaded hd)
            (or_fault out_of_bounds (write_announce_response_data p.endian block resp)) _
            (IsHeaded-Ensures hd _ (announce_response-IsHeaded p.endian block resp))
            (λ b h. Begins-Ensures hd _ (announce_peers-IsHeaded p.endian hd b peers h) _)))

  answer_announce-Begins :
      (request : Request) (config : Config) (announce_request : AnnounceRequest)
      (client_addr hash : Bytes)
      → Ensures
          (Begins (head request.action request.transaction_id))
          (answer_announce p request config announce_request client_addr hash)
  unfolding answer_announce
  answer_announce-Begins request config announce_request client_addr hash =
      let is_seeder = announce_request.left == 0 in
      let num_want = clamp_num_want announce_request.num_want config.announce_max_numwant in
      Ensures-then (update_peer_list p config announce_request client_addr hash is_seeder) _ (λ _.
        Ensures-then (gather_peers p config hash num_want is_seeder) _ (λ gathered.
          Ensures-then (stack_object p 12) _ (λ object.
            Ensures-then (get_torrent_stats p config hash (some (stats_of_bytes p object))) _
              (λ stats.
                serialize_announce_response-Begins
                  (record {
                    action = request.action;
                    transaction_id = request.transaction_id;
                    interval = config.announce_wait_time;
                    leechers = stats.leechers;
                    seeders = stats.seeders;
                  })
                  gathered.1 gathered.0))))

  pub handle_announce-Echoes :
      (request : Request) (config : Config) (buff : Bytes) (buflen : ℕ) (client_addr : Bytes)
      → Ensures
          (IfAny (IsReplyTo request))
          (handle_announce p request config buff buflen client_addr)
  unfolding handle_announce
  handle_announce-Echoes request config buff buflen client_addr =
      let announce_request = read_announce_request_data p.target p.endian buff in
      Ensures-then (valid_request p config request buflen) _ (λ valid.
        Ensures-if valid _ _
          (Ensures-then (bytearray_to_hexarray p announce_request.info_hash) _ (λ hash.
            Ensures-then (info_hash_blacklisted p config hash) _ (λ blacklisted. some-Ensures _ _ (
              Ensures-if blacklisted _ _
                (Ensures-map (λ r h. inr h) (send_error-Begins p request _))
                (Ensures-map (λ r h. inl h)
                  (answer_announce-Begins request config announce_request client_addr hash))))))
          (Ensures-pure none tt))
