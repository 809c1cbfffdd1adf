-- ===== src/Announce/Layout.antt =====
-- The packet that answers an announce, and what becomes of it where memory is short.
use bttracker.Common.{
  ◌+◌, ◌*◌, ◌≡◌, ◌∙◌, sym, arith, none, some, List, ◌++◌, length, drop, length-drop,
}
use bttracker.Memory.{Bytes}
use bttracker.Data.{AnnounceResponse, PeerAddr}
use bttracker.Net.Fields.{to_packet, length-to_packet}
use bttracker.Net.Responses.{
  announce_response_fields, announce_response-IsSized, peer_fields, announce_response-fields,
  announce_peers-fields,
}
use bttracker.Platform.{Platform, World}
use bttracker.Platform.Laws.{HasMemory}
use bttracker.Exec.{done, fault, null_pointer, malloc, malloc_or_exit, malloc_unchecked}
use bttracker.Exec.Runs.{
  malloc_or_exit-done, malloc_unchecked-done, redis-malloc_or_exit, redis-malloc_unchecked,
}
use bttracker.Announce.{serialize_announce_response}

module _ (p : Platform) (resp : AnnounceResponse) (peers : List PeerAddr) (w : World p) where
  -- With memory, and the count of the peers that are given, the answer has 20 bytes and six for
  -- each peer: the fields of the header, then the address and the port of each peer in order;
  -- Redis is left alone.
  pub serialize_announce_response-done :
      HasMemory p
      → ((serialize_announce_response p resp (length peers) peers w).0
          ≡ done (record {
            length = 20 + length peers * 6;
            data_bytes = to_packet (announce_response_fields resp) ++ to_packet (peer_fields peers);
          }))
        × ((serialize_announce_response p resp (length peers) peers w).1.redis ≡ w.redis)
  unfolding serialize_announce_response
  serialize_announce_response-done memory =
      let w1 = (malloc_or_exit p 16 w).1 in
      let size = 20 + length peers * 6 in
      let block = memory.block size w1.heap in
      let sized : length block ≡ size = memory.block_size size w1.heap in
      let header = announce_response-fields p.endian block resp (omega (arith, sized)) in
      let body =
        announce_peers-fields p.endian (to_packet (announce_response_fields resp)) (drop 20 block)
          peers
          (sym (length-to_packet (announce_response_fields resp) (announce_response-IsSized resp)))
          (omega (arith, length-drop 20 block, sized)) in
      let step = malloc_or_exit-done p 16 w memory in
      let second = malloc_unchecked-done p size w1 memory in
      (
        rw (step, second, header, body),
        rw (step, second, header, body)
            (redis-malloc_unchecked p size w1 ∙ redis-malloc_or_exit p 16 w),
      )

  -- Where the allocation of the response gives memory and that of its data gives NULL, the writer
  -- follows NULL.
  pub serialize_announce_response_null :
      (header : Bytes)
      → (p.malloc 16 w.heap).0 ≡ some header
      → (p.malloc (20 + length peers * 6) (p.malloc 16 w.heap).1).0 ≡ none
      → (serialize_announce_response p resp (length peers) peers w).0 ≡ fault null_pointer
  unfolding serialize_announce_response malloc_or_exit malloc_unchecked malloc
  serialize_announce_response_null header there null = rw (there, null)
