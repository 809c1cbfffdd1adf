-- ===== src/Announce/Limits.antt =====
-- How long the response to an announce is.
use bttracker.Common.{
  ℕ, ◌+◌, ◌-◌, ◌*◌, ◌^◌, ◌≤◌, ◌<◌, arith, Bool, true, false, not, if◌then◌else◌, none, List, ◌++◌,
  ◌==◌, inl, inr, ◌⊎◌, some,
}
use bttracker.Memory.{Bytes}
use bttracker.Data.{Config, Request, AnnounceRequest, AnnounceResponse, PeerAddr, ResponseBuffer}
use bttracker.Net.{
  read_announce_request_data, write_announce_response_data, write_announce_peer_data,
}
use bttracker.Platform.{Platform}
use bttracker.Exec.{or_fault, out_of_bounds, malloc_or_exit, malloc_unchecked, stack_object}
use bttracker.Exec.Posts.{
  Ensures, Ensures-pure, Ensures-if, Ensures-bind, Ensures-then, Ensures-map,
}
use bttracker.Exec.Responses.{IfAny, some-Ensures}
use bttracker.Hex.{bytearray_to_hexarray}
use bttracker.Redis.{info_hash_blacklisted, get_torrent_stats}
use bttracker.Peers.{peer_list}
use bttracker.Peers.Limits.{IsUpTo, peer_list-Ensures}
use bttracker.Handshake.{valid_request}
use bttracker.Scrape.{stats_of_bytes}
use bttracker.ErrorReply.Limits.{send_error-Limited}
use bttracker.Announce.{
  clamp_num_want, update_peer_list, gather_peers, serialize_announce_response, answer_announce,
  handle_announce,
}

clamp_num_want-le : (num_want most : ℕ) → clamp_num_want num_want most ≤ most
unfolding clamp_num_want
clamp_num_want-le num_want most = ground arith

-- A response to an announce, or an error response with the text of the blacklist.
abbrev pub IsAnswer : Config → ResponseBuffer → Type 0
IsAnswer config resp = (resp.length ≤ 86) ⊎ (resp.length ≤ 20 + config.announce_max_numwant * 6)

module _ (p : Platform) where
  serialize_announce_response-Limited :
      (n : ℕ) (resp : AnnounceResponse) (peer_count : ℕ) (peers : List PeerAddr)
      → peer_count ≤ n
      → Ensures (λ r. r.length ≤ 20 + n * 6) (serialize_announce_response p resp peer_count peers)
  unfolding serialize_announce_response
  serialize_announce_response-Limited n resp peer_count peers h =
      Ensures-then (malloc_or_exit p 16) _ (λ header.
        Ensures-then (malloc_unchecked p (20 + peer_count * 6)) _ (λ block.
          Ensures-then (or_fault out_of_bounds (write_announce_response_data p.endian block resp)) _
            (λ head.
              Ensures-then (or_fault out_of_bounds (write_announce_peer_data p.endian head peers)) _
                (λ b.
                  let within : 20 + peer_count * 6 ≤ 20 + n * 6 = omega arith in
                  Ensures-pure (record { length = 20 + peer_count * 6; data_bytes = b }) within))))

  joined-IsUpTo :
      (n : ℕ) (b : Bool) (others same : List PeerAddr × ℕ)
      → others.1 ≤ n
      → same.1 ≤ n - others.1
      → IsUpTo p n (if b then (others.0 ++ same.0, others.1 + same.1) else (others.0, others.1))
  joined-IsUpTo n true others same h k = omega arith
  joined-IsUpTo n false others same h k = h

  gather_peers-Ensures :
      (config : Config) (hash : Bytes) (num_want : ℕ) (is_seeder : Bool)
      → num_want < 2 ^ 31
      → Ensures (IsUpTo p num_want) (gather_peers p config hash num_want is_seeder)
  unfolding gather_peers
  gather_peers-Ensures config hash num_want is_seeder h =
      Ensures-bind (IsUpTo p num_want) (peer_list p config hash num_want 0 (not is_seeder)) _
        (peer_list-Ensures p config hash num_want (not is_seeder) h)
        (λ others few.
          Ensures-if _ _ _
            (Ensures-bind (IsUpTo p (num_want - others.1))
              (peer_list p config hash (num_want - others.1) 0 is_seeder) _
              (peer_list-Ensures p config hash (num_want - others.1) is_seeder (omega arith))
              (λ same fewer. Ensures-pure _ (joined-IsUpTo num_want _ others same few fewer)))
            (Ensures-pure others few))

  answer_announce-Limited :
      (request : Request) (config : Config) (announce_request : AnnounceRequest)
      (client_addr hash : Bytes)
      → config.announce_max_numwant < 2 ^ 31
      → Ensures
          (λ r. r.length ≤ 20 + config.announce_max_numwant * 6)
          (answer_announce p request config announce_request client_addr hash)
  unfolding answer_announce
  answer_announce-Limited request config announce_request client_addr hash h =
      let is_seeder = announce_request.left == 0 in
      let num_want = clamp_num_want announce_request.num_want config.announce_max_numwant in
      let clamped = clamp_num_want-le announce_request.num_want config.announce_max_numwant in
      Ensures-then (update_peer_list p config announce_request client_addr hash is_seeder) _ (λ _.
        Ensures-bind (IsUpTo p num_want) (gather_peers p config hash num_want is_seeder) _
          (gather_peers-Ensures config hash num_want is_seeder (omega arith))
          (λ gathered few. Ensures-then (stack_object p 12) _ (λ object.
            Ensures-then (get_torrent_stats p config hash (some (stats_of_bytes p object))) _
              (λ stats.
                serialize_announce_response-Limited config.announce_max_numwant _ gathered.1
                  gathered.0 (omega arith)))))

  pub handle_announce-Limited :
      (request : Request) (config : Config) (buff : Bytes) (buflen : ℕ) (client_addr : Bytes)
      → config.announce_max_numwant < 2 ^ 31
      → Ensures (IfAny (IsAnswer config)) (handle_announce p request config buff buflen client_addr)
  unfolding handle_announce
  handle_announce-Limited request config buff buflen client_addr h =
      let announce_request = read_announce_request_data p.target p.endian buff in
      Ensures-then (valid_request p config request buflen) _ (λ valid.
        Ensures-if valid _ _
          (Ensures-then (bytearray_to_hexarray p announce_request.info_hash) _ (λ hash.
            Ensures-then (info_hash_blacklisted p config hash) _ (λ blacklisted.
              some-Ensures (IsAnswer config) _ (
                Ensures-if blacklisted _ _
                  (Ensures-map (λ r k. inl k) (send_error-Limited p 22 request _ (omega arith)))
                  (Ensures-map (λ r k. inr k)
                    (answer_announce-Limited request config _ client_addr hash h))))))
          (Ensures-pure none tt))
