-- ===== src/Net/Scrapes.antt =====
-- `bt_read_scrape_request_data`: which lengths the array `info_hash` of 160 bytes can take, and what
-- the caller finds in it.
use bttracker.Common.{
  ℕ, zero, suc, ◌+◌, ◌-◌, ◌*◌, ◌/◌, ◌%◌, ◌^◌, ◌≤◌, ◌<◌, ◌≡◌, refl, sym, ap, ◌∙◌, arith, ◌⊎◌, none,
  some, List, [], ◌∷◌, ◌++◌, length, take, drop, get_elem?, All, leb, le→leb, lt→not-leb, map,
  append_assoc, true,
}
use mathlib.Core.Option.{some-injective}
use bttracker.Memory.{Bytes, Endian, slice, memcpy, load, hton}
use bttracker.Memory.Order.{length-to_be}
use bttracker.Memory.Blocks.{memcpy-append, memcpy-slice, slice-append}
use bttracker.ByteOrder.{Target, IsSupported, ntohll}
use bttracker.Data.{Request, ScrapeRequest, IsRequest}
use bttracker.Net.{read_request_data, read_scrape_request_data}
use bttracker.Net.Fields.{
  Fields, to_packet, width, IsSized, length-to_packet, to_packet-append, slice-to_packet,
}
use bttracker.Net.Requests.{request_fields, read_request_fields}

abbrev pub hash_fields : List Bytes → Fields
hash_fields = map (λ h. (20, h))

-- With an array of 160 bytes, a length below 16 or above 176 makes the copy leave the array,
-- whatever the buffer holds.
pub read_scrape_overflow :
    (t : Target) (e : Endian) (buffer array : Bytes) (buflen : ℕ)
    → length array ≡ 160
    → buflen < 2 ^ 64
    → (buflen < 16) ⊎ (176 < buflen)
    → read_scrape_request_data t e buffer buflen array ≡ none
unfolding read_scrape_request_data
read_scrape_overflow t e buffer array buflen h b out =
    rw (lt→not-leb ((buflen + 2 ^ 64 - 16) % 2 ^ 64) (length array) (omega arith))

-- And a length from 16 to 176 keeps it in the array.
pub read_scrape_fits :
    (t : Target) (e : Endian) (buffer array : Bytes) (buflen : ℕ)
    → length array ≡ 160
    → 16 ≤ buflen
    → buflen ≤ 176
    → (r : ScrapeRequest) × (read_scrape_request_data t e buffer buflen array ≡ some r)
unfolding read_scrape_request_data
read_scrape_fits t e buffer array buflen h low high =
    let n = (buflen + 2 ^ 64 - 16) % 2 ^ 64 in
    let (b, copied) = memcpy-slice array buffer 16 n (omega arith) in
    (
      record {
        connection_id = ntohll t e (load e (slice 0 8 buffer));
        action = hton e 4 (load e (slice 8 4 buffer));
        transaction_id = hton e 4 (load e (slice 12 4 buffer));
        info_hash_len = n / 20;
        info_hash = b;
      },
      rw (le→leb n (length array) (omega arith), copied),
    )

abbrev pub AreHashes : List Bytes → Type 0
AreHashes = All (λ h. length h ≡ 20)

hash_fields-IsSized : (hs : List Bytes) → AreHashes hs → IsSized (hash_fields hs)
hash_fields-IsSized [] h = tt
hash_fields-IsSized (x ∷ hs) h = (h.0, hash_fields-IsSized hs h.1)

width-hash_fields : (hs : List Bytes) → width (hash_fields hs) ≡ 20 * length hs
width-hash_fields [] = refl
width-hash_fields (x ∷ hs) = omega (arith, width-hash_fields hs)

-- The array after a packet with the hashes `hs` was read.
abbrev pub hash_array : List Bytes → Bytes → Bytes
hash_array hs array = to_packet (hash_fields hs) ++ drop (20 * length hs) array

pub request_fields-IsSized : (req : Request) → IsSized (request_fields req)
request_fields-IsSized req = (
  length-to_be 8 req.connection_id,
  (length-to_be 4 req.action, (length-to_be 4 req.transaction_id, tt)),
)

width-take_hashes :
    (hs : List Bytes) (i : ℕ) (h : Bytes)
    → get_elem? hs i ≡ some h
    → width (take i (hash_fields hs)) ≡ 20 * i
width-take_hashes [] i h at = cc
width-take_hashes (x ∷ hs) zero h at = refl
width-take_hashes (x ∷ hs) (suc i) h at = omega (arith, width-take_hashes hs i h at)

get_elem?-hash_fields :
    (hs : List Bytes) (i : ℕ) (h : Bytes)
    → get_elem? hs i ≡ some h
    → get_elem? (hash_fields hs) i ≡ some (20, h)
get_elem?-hash_fields [] i h at = cc
get_elem?-hash_fields (x ∷ hs) zero h at = ap (λ b. some (20, b)) (some-injective x h at)
get_elem?-hash_fields (x ∷ hs) (suc i) h at = get_elem?-hash_fields hs i h at

module _ (t : Target) (e : Endian) (ok : IsSupported t e) where
  -- On a supported byte order, a scrape packet with up to eight hashes, each field in the range
  -- of its type and the length of the datagram that of the packet, is read as its header, the
  -- count of its hashes, and their bytes at the front of the array.
  pub read_scrape_fields :
      (req : Request) (hs : List Bytes) (rest array : Bytes)
      → IsRequest req
      → AreHashes hs
      → length hs ≤ 8
      → length array ≡ 160
      → read_scrape_request_data t e
          (to_packet (request_fields req ++ hash_fields hs) ++ rest)
          (16 + 20 * length hs)
          array
        ≡ some (record {
          connection_id = req.connection_id;
          action = req.action;
          transaction_id = req.transaction_id;
          info_hash_len = length hs;
          info_hash = hash_array hs array;
        })
  unfolding read_scrape_request_data read_request_data
  read_scrape_fields req hs rest array h hh few len =
      let sized : IsSized (hash_fields hs) = hash_fields-IsSized hs hh in
      let count : length (to_packet (hash_fields hs)) ≡ 20 * length hs =
        length-to_packet (hash_fields hs) sized ∙ width-hash_fields hs in
      let copied : (16 + 20 * length hs + 2 ^ 64 - 16) % 2 ^ 64 ≡ 20 * length hs = omega arith in
      let fits : leb (20 * length hs) (length array) ≡ true =
        le→leb (20 * length hs) (length array) (omega arith) in
      let hashes : slice 16 (20 * length hs)
            (to_packet (request_fields req ++ hash_fields hs) ++ rest)
          ≡ to_packet (hash_fields hs) =
        rw (to_packet-append (request_fields req) (hash_fields hs), append_assoc)
          (slice-append (to_packet (request_fields req)) (to_packet (hash_fields hs)) rest 16
            (20 * length hs)
            (sym (length-to_packet (request_fields req) (request_fields-IsSized req)))
            (sym count)) in
      let stored : memcpy array 0 (to_packet (hash_fields hs)) ≡ some (hash_array hs array) =
        memcpy-append [] array (to_packet (hash_fields hs)) 0 refl (omega (arith, count))
        ∙ rw count in
      let header = read_request_fields t e ok req (hash_fields hs) rest sized h in
      let groups : 20 * length hs / 20 ≡ length hs = omega arith in
      rw (copied, fits, hashes, stored, groups)
        (λ i. some (record {
          connection_id = (header i).connection_id;
          action = (header i).action;
          transaction_id = (header i).transaction_id;
          info_hash_len = length hs;
          info_hash = hash_array hs array;
        }))

-- The caller finds the `i`-th hash of the packet at byte 20 * i of the array.
pub hash_array-slice :
    (hs : List Bytes) (array : Bytes) (i : ℕ) (h : Bytes)
    → AreHashes hs
    → get_elem? hs i ≡ some h
    → slice (20 * i) 20 (hash_array hs array) ≡ h
hash_array-slice hs array i h hh at = rw (← width-take_hashes hs i h at) (
    slice-to_packet (hash_fields hs) i 20 h (drop (20 * length hs) array)
      (hash_fields-IsSized hs hh) (get_elem?-hash_fields hs i h at))
