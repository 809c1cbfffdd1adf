-- ===== src/Peers/Objects.antt =====
-- A peer as Redis keeps it: what `bt_peer_list` reads is what `bt_new_peer` wrote.
use bttracker.Common.{
  ◌^◌, ◌<◌, ◌≡◌, refl, arith, false, some, [], ◌∷◌, ◌++◌, append-nil, length, drop, length-append,
  length-drop, ltb,
}
use bttracker.Memory.{Bytes, store, slice}
use bttracker.Memory.Order.{length-store, load-store}
use bttracker.Data.{Peer}
use bttracker.Net.Fields.{Fields, to_packet, IsSized, length-to_packet, slice-to_packet}
use bttracker.Platform.{Platform}
use bttracker.Peers.{peer_object, read_peer_addr}

module _ (p : Platform) (block : Bytes) (peer : Peer) (size : length block ≡ 40) where
  abbrev object_fields : Fields
  object_fields =
      (4, store p.endian 4 peer.key)
      ∷ (4, store p.endian 4 peer.ipv4_addr)
      ∷ (8, store p.endian 8 peer.downloaded)
      ∷ (8, store p.endian 8 peer.uploaded)
      ∷ (8, store p.endian 8 peer.left)
      ∷ (2, store p.endian 2 peer.port)
      ∷ (6, drop 34 block)
      ∷ []

  object_fields-IsSized : IsSized object_fields
  object_fields-IsSized = (
    length-store p.endian 4 peer.key,
    (
      length-store p.endian 4 peer.ipv4_addr,
      (
        length-store p.endian 8 peer.downloaded,
        (
          length-store p.endian 8 peer.uploaded,
          (
            length-store p.endian 8 peer.left,
            (length-store p.endian 2 peer.port, (omega (arith, length-drop 34 block), tt)),
          ),
        ),
      ),
    ),
  )

  peer_object-fields : peer_object p block peer ≡ to_packet object_fields
  unfolding peer_object
  peer_object-fields = rw (append-nil (drop 34 block))

  -- The object has the size that `sizeof` gives.
  pub length-peer_object : length (peer_object p block peer) ≡ 40
  length-peer_object = rw peer_object-fields (length-to_packet object_fields object_fields-IsSized)

  -- In a block of 40 bytes, an address of 32 bits and a port of 16 bits are read back from the
  -- stored object of a peer as they were written.
  pub read_peer_addr-peer_object :
      peer.ipv4_addr < 2 ^ 32
      → peer.port < 2 ^ 16
      → read_peer_addr p (peer_object p block peer)
        ≡ some (record { ipv4_addr = peer.ipv4_addr; port = peer.port })
  unfolding read_peer_addr
  read_peer_addr-peer_object a b =
      let long : ltb (length (peer_object p block peer ++ (0 ∷ []))) 34 ≡ false =
        ground (arith, length-append (peer_object p block peer) (0 ∷ []), length-peer_object) in
      let addr : slice 4 4 (to_packet object_fields ++ (0 ∷ [])) ≡ store p.endian 4 peer.ipv4_addr =
        slice-to_packet object_fields 1 4 (store p.endian 4 peer.ipv4_addr) (0 ∷ [])
          object_fields-IsSized refl in
      let port : slice 32 2 (to_packet object_fields ++ (0 ∷ [])) ≡ store p.endian 2 peer.port =
        slice-to_packet object_fields 5 2 (store p.endian 2 peer.port) (0 ∷ [])
          object_fields-IsSized refl in
      rw long (
        rw peer_object-fields (
          rw (
            addr,
            port,
            load-store p.endian 4 peer.ipv4_addr a,
            load-store p.endian 2 peer.port b,
          )))
