-- ===== src/Net/Requests.antt =====
-- The readers of net.c against the layouts of BEP 15: a packet laid out by the fields of a request
-- is read as that request, whatever follows it in the buffer.
use bttracker.Common.{ℕ, ◌<◌, ◌^◌, ◌≡◌, refl, [], ◌∷◌, ◌++◌, take, get_elem?, some}
use bttracker.Memory.{Bytes, Endian, load, slice}
use bttracker.Memory.Order.{length-to_be}
use bttracker.ByteOrder.{Target, ntohll, IsSupported}
use bttracker.ByteOrder.Macros.{ntohll-eq-hton}
use bttracker.Data.{Request, AnnounceRequest, IsRequest, IsAnnounce}
use bttracker.Net.{read_request_data, read_announce_request_data}
use bttracker.Net.Fields.{Fields, num, to_packet, width, IsSized, slice-to_packet, load-to_packet}

-- The 16 bytes that every request starts with.
abbrev pub request_fields : Request → Fields
request_fields req = num 8 req.connection_id ∷ num 4 req.action ∷ num 4 req.transaction_id ∷ []

abbrev pub announce_fields : AnnounceRequest → Fields
announce_fields req =
    num 8 req.connection_id
    ∷ num 4 req.action
    ∷ num 4 req.transaction_id
    ∷ (20, req.info_hash)
    ∷ (20, req.peer_id)
    ∷ num 8 req.downloaded
    ∷ num 8 req.left
    ∷ num 8 req.uploaded
    ∷ num 4 req.event
    ∷ num 4 req.ipv4_addr
    ∷ num 4 req.key
    ∷ num 4 req.num_want
    ∷ num 2 req.port
    ∷ []

module _ (t : Target) (e : Endian) (ok : IsSupported t e) where
  load64 :
      (fs : Fields) (k v : ℕ) (rest : Bytes)
      → IsSized fs
      → get_elem? fs k ≡ some (num 8 v)
      → v < 2 ^ 64
      → ntohll t e (load e (slice (width (take k fs)) 8 (to_packet fs ++ rest))) ≡ v
  load64 fs k v rest h at b = rw (ntohll-eq-hton t e ok) (load-to_packet e fs k 8 v rest h at b)

  pub read_request_fields :
      (req : Request) (gs : Fields) (rest : Bytes)
      → IsSized gs
      → IsRequest req
      → read_request_data t e (to_packet (request_fields req ++ gs) ++ rest) ≡ req
  unfolding read_request_data
  read_request_fields req gs rest g h =
      let sized : IsSized (request_fields req ++ gs) = (
        length-to_be 8 req.connection_id,
        (length-to_be 4 req.action, (length-to_be 4 req.transaction_id, g)),
      ) in
      λ i. record {
        connection_id =
            load64 (request_fields req ++ gs) 0 req.connection_id rest sized refl h.connection_id i;
        action =
            load-to_packet e (request_fields req ++ gs) 1 4 req.action rest sized refl h.action i;
        transaction_id =
            load-to_packet e (request_fields req ++ gs) 2 4 req.transaction_id rest sized refl
              h.transaction_id i;
      }

  -- On a supported byte order, a buffer that starts with the packet of an announce request, each
  -- field in the range of its type, is read as that request, whatever follows the packet.
  pub read_announce_fields :
      (req : AnnounceRequest) (rest : Bytes)
      → IsAnnounce req
      → read_announce_request_data t e (to_packet (announce_fields req) ++ rest) ≡ req
  unfolding read_announce_request_data
  read_announce_fields req rest h =
      let sized : IsSized (announce_fields req) = (
        length-to_be 8 req.connection_id,
        (
          length-to_be 4 req.action,
          (
            length-to_be 4 req.transaction_id,
            (
              h.info_hash,
              (
                h.peer_id,
                (
                  length-to_be 8 req.downloaded,
                  (
                    length-to_be 8 req.left,
                    (
                      length-to_be 8 req.uploaded,
                      (
                        length-to_be 4 req.event,
                        (
                          length-to_be 4 req.ipv4_addr,
                          (
                            length-to_be 4 req.key,
                            (length-to_be 4 req.num_want, (length-to_be 2 req.port, tt)),
                          ),
                        ),
                      ),
                    ),
                  ),
                ),
              ),
            ),
          ),
        ),
      ) in
      λ i. record {
        connection_id =
            load64 (announce_fields req) 0 req.connection_id rest sized refl h.connection_id i;
        action = load-to_packet e (announce_fields req) 1 4 req.action rest sized refl h.action i;
        transaction_id =
            load-to_packet e (announce_fields req) 2 4 req.transaction_id rest sized refl
              h.transaction_id i;
        info_hash = slice-to_packet (announce_fields req) 3 20 req.info_hash rest sized refl i;
        peer_id = slice-to_packet (announce_fields req) 4 20 req.peer_id rest sized refl i;
        downloaded = load64 (announce_fields req) 5 req.downloaded rest sized refl h.downloaded i;
        left = load64 (announce_fields req) 6 req.left rest sized refl h.left i;
        uploaded = load64 (announce_fields req) 7 req.uploaded rest sized refl h.uploaded i;
        event = load-to_packet e (announce_fields req) 8 4 req.event rest sized refl h.event i;
        ipv4_addr =
            load-to_packet e (announce_fields req) 9 4 req.ipv4_addr rest sized refl h.ipv4_addr i;
        key = load-to_packet e (announce_fields req) 10 4 req.key rest sized refl h.key i;
        num_want =
            load-to_packet e (announce_fields req) 11 4 req.num_want rest sized refl h.num_want i;
        port = load-to_packet e (announce_fields req) 12 2 req.port rest sized refl h.port i;
      }
