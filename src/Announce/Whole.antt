-- ===== src/Announce/Whole.antt =====
-- The bytes and the length of the response to an announce.
use bttracker.Common.{ℕ, ◌+◌, ◌*◌, none, List, ◌==◌, some}
use bttracker.Memory.{Bytes}
use bttracker.Data.{Config, Request, AnnounceRequest, AnnounceResponse, PeerAddr}
use bttracker.Net.{write_announce_response_data, read_announce_request_data}
use bttracker.Net.Sizes.{HasBytes-announce_response, HasBytes-announce_peers}
use bttracker.Platform.{Platform}
use bttracker.Platform.Laws.{HasBlocks}
use bttracker.Exec.{or_fault, out_of_bounds, malloc_or_exit, malloc_unchecked, stack_object}
use bttracker.Exec.Posts.{
  Ensures, Ensures-pure, Ensures-if, Ensures-bind, Ensures-then, IsBlock, malloc_unchecked-Ensures,
}
use bttracker.Exec.Responses.{IsPacket, IfAny, written-Ensures, respond-Ensures, some-Ensures}
use bttracker.Hex.{bytearray_to_hexarray}
use bttracker.Redis.{info_hash_blacklisted, get_torrent_stats}
use bttracker.Scrape.{stats_of_bytes}
use bttracker.Handshake.{valid_request}
use bttracker.ErrorReply.Whole.{send_error-Ensures}
use bttracker.Scrape.Whole.{blacklisted-IsByte}
use bttracker.Announce.{
  clamp_num_want, update_peer_list, gather_peers, serialize_announce_response, answer_announce,
  handle_announce,
}

module _ (p : Platform) (blocks : HasBlocks p) where
  serialize_announce_response-Ensures :
      (resp : AnnounceResponse) (peer_count : ℕ) (peers : List PeerAddr)
      → Ensures IsPacket (serialize_announce_response p resp peer_count peers)
  unfolding serialize_announce_response
  serialize_announce_response-Ensures resp peer_count peers =
      let n = 20 + peer_count * 6 in
      Ensures-then (malloc_or_exit p 16) _ (λ header.
        Ensures-bind (IsBlock p blocks n) (malloc_unchecked p n) _
          (malloc_unchecked-Ensures p blocks n)
          (λ block size.
            Ensures-bind (IsBlock p blocks n)
              (or_fault out_of_bounds (write_announce_response_data p.endian block resp)) _
              (written-Ensures n _ (HasBytes-announce_response n p.endian block resp size))
              (λ head size'.
                respond-Ensures n _ (HasBytes-announce_peers n p.endian head peers size'))))

  answer_announce-Ensures :
      (request : Request) (config : Config) (announce_request : AnnounceRequest)
      (client_addr info_hash_str : Bytes)
      → Ensures IsPacket
          (answer_announce p request config announce_request client_addr info_hash_str)
  unfolding answer_announce
  answer_announce-Ensures request config announce_request client_addr info_hash_str =
      let is_seeder = announce_request.left == 0 in
      let num_want = clamp_num_want announce_request.num_want config.announce_max_numwant in
      Ensures-then (update_peer_list p config announce_request client_addr info_hash_str is_seeder)
        _
        (λ _. Ensures-then (gather_peers p config info_hash_str num_want is_seeder) _ (λ gathered.
          Ensures-then (stack_object p 12) _ (λ object.
            Ensures-then (get_torrent_stats p config info_hash_str (some (stats_of_bytes p object)))
              _ (λ stats. serialize_announce_response-Ensures _ _ _))))

  pub handle_announce-Ensures :
      (request : Request) (config : Config) (buff : Bytes) (buflen : ℕ) (client_addr : Bytes)
      → Ensures (IfAny IsPacket) (handle_announce p request config buff buflen client_addr)
  unfolding handle_announce
  handle_announce-Ensures request config buff buflen client_addr =
      Ensures-then (valid_request p config request buflen) _ (λ valid.
        Ensures-if valid _ _
          (Ensures-then
            (bytearray_to_hexarray p (read_announce_request_data p.target p.endian buff).info_hash)
            _
            (λ info_hash_str.
              Ensures-then (info_hash_blacklisted p config info_hash_str) _ (λ blacklisted.
                some-Ensures _ _ (
                  Ensures-if blacklisted _ _
                    (send_error-Ensures p blocks request _ blacklisted-IsByte)
                    (answer_announce-Ensures request config _ client_addr _)))))
          (Ensures-pure none tt))
