-- ===== src/Announce/Pipelines.antt =====
-- The replies of Redis that the answer to an announce reads.
use bttracker.Common.{ℕ, ◌-◌, Bool, not, none, some, List, ◌==◌}
use bttracker.Memory.{Bytes}
use bttracker.Data.{Config, Request, AnnounceRequest, AnnounceResponse, PeerAddr}
use bttracker.Net.{write_announce_response_data, write_announce_peer_data}
use bttracker.Platform.{Platform}
use bttracker.Exec.{or_fault, out_of_bounds}
use bttracker.Platform.Pipelines.{HasPipeline}
use bttracker.Exec.Pipelines.{
  Leaves, Leaves-pure, Leaves-or_fault, Leaves-if, Leaves-then, malloc_or_exit-Leaves,
  malloc_unchecked-Leaves, stack_object-Leaves,
}
use bttracker.Hex.Pipelines.{bytearray_to_hexarray-Leaves}
use bttracker.Redis.Pipelines.{info_hash_blacklisted-Leaves, get_torrent_stats-Leaves}
use bttracker.Peers.Pipelines.{
  new_peer-Leaves, insert_peer-Leaves, remove_peer-Leaves, promote_peer-Leaves, peer_list-Leaves,
}
use bttracker.Handshake.Pipelines.{valid_request-Leaves}
use bttracker.ErrorReply.Pipelines.{send_error-Leaves}
use bttracker.Announce.{
  update_peer_list, gather_peers, serialize_announce_response, answer_announce, handle_announce,
}

module _ (p : Platform) (pipe : HasPipeline p) (n : ℕ) where
  update_peer_list-Leaves :
      (config : Config) (request : AnnounceRequest) (client_addr hash : Bytes) (is_seeder : Bool)
      → Leaves pipe n n (update_peer_list p config request client_addr hash is_seeder)
  unfolding update_peer_list
  update_peer_list-Leaves config request client_addr hash is_seeder =
      Leaves-if n n _ _ _ (remove_peer-Leaves p pipe n config hash request.peer_id is_seeder) (
        Leaves-if n n _ _ _ (promote_peer-Leaves p pipe n config hash request.peer_id) (
          Leaves-if n n _ _ _
            (Leaves-then _ _ (new_peer-Leaves p pipe n request _)
              (λ peer. insert_peer-Leaves p pipe n config hash request.peer_id peer is_seeder))
            (Leaves-pure n tt)))

  serialize_announce_response-Leaves :
      (resp : AnnounceResponse) (peer_count : ℕ) (peers : List PeerAddr)
      → Leaves pipe n n (serialize_announce_response p resp peer_count peers)
  unfolding serialize_announce_response
  serialize_announce_response-Leaves resp peer_count peers =
      Leaves-then _ _ (malloc_or_exit-Leaves pipe n 16) (λ header.
        Leaves-then _ _ (malloc_unchecked-Leaves pipe n _) (λ block.
          Leaves-then (or_fault out_of_bounds (write_announce_response_data p.endian block resp)) _
            (Leaves-or_fault n _ _)
            (λ head.
              Leaves-then (or_fault out_of_bounds (write_announce_peer_data p.endian head peers)) _
                (Leaves-or_fault n _ _) (λ resp. Leaves-pure n _))))

  gather_peers-Leaves :
      (config : Config) (hash : Bytes) (num_want : ℕ) (is_seeder : Bool)
      → Leaves pipe n n (gather_peers p config hash num_want is_seeder)
  unfolding gather_peers
  gather_peers-Leaves config hash num_want is_seeder =
      Leaves-then _ _ (peer_list-Leaves p pipe n config hash num_want 0 (not is_seeder)) (λ others.
        Leaves-if n n _ _ _
          (Leaves-then _ _ (peer_list-Leaves p pipe n config hash (num_want - others.1) 0 is_seeder)
            (λ same. Leaves-pure n _))
          (Leaves-pure n _))

  answer_announce-Leaves :
      (request : Request) (config : Config) (announce_request : AnnounceRequest)
      (client_addr hash : Bytes)
      → Leaves pipe n n (answer_announce p request config announce_request client_addr hash)
  unfolding answer_announce
  answer_announce-Leaves request config announce_request client_addr hash =
      Leaves-then _ _ (update_peer_list-Leaves config announce_request client_addr hash _) (λ _.
        Leaves-then _ _ (gather_peers-Leaves config hash _ (announce_request.left == 0)) (λ found.
          Leaves-then _ _ (stack_object-Leaves pipe n 12) (λ object.
            Leaves-then _ _ (get_torrent_stats-Leaves p pipe n config hash _)
              (λ stats. serialize_announce_response-Leaves _ _ _))))

  pub handle_announce-Leaves :
      (request : Request) (config : Config) (buff : Bytes) (buflen : ℕ) (client_addr : Bytes)
      → Leaves pipe n n (handle_announce p request config buff buflen client_addr)
  unfolding handle_announce
  handle_announce-Leaves request config buff buflen client_addr =
      Leaves-then _ _ (valid_request-Leaves p pipe n config request buflen) (λ valid.
        Leaves-if n n valid _ _
          (Leaves-then _ _ (bytearray_to_hexarray-Leaves p pipe n _) (λ hash.
            Leaves-then _ _ (info_hash_blacklisted-Leaves p pipe n config hash) (λ blacklisted.
              Leaves-then _ _
                (Leaves-if n n blacklisted _ _ (send_error-Leaves p pipe n request _)
                  (answer_announce-Leaves request config _ client_addr hash))
                (λ resp. Leaves-pure n (some resp)))))
          (Leaves-pure n none))
