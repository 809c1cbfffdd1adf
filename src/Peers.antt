-- ===== src/Peers.antt =====
-- The functions of src/data.c on peers. A `bt_peer_t` is stored in Redis as the bytes of the object
-- on a 64-bit host: four-byte key and address, three eight-byte counts, a two-byte port at offset
-- 32, and six bytes of padding.
pub mod Objects
pub mod Effects
pub mod Shuffles
pub mod Fairness
pub mod Replies
pub mod Lists
pub mod Races
pub mod Pipelines
pub mod Limits
use bttracker.Common.{
  ℕ, zero, suc, ◌+◌, ◌-◌, ◌%◌, ◌^◌, Bool, true, false, Option, none, some, List, [], ◌∷◌, ◌++◌,
  length, take, drop, get_elem?, set, ltb, ◌==◌, if◌then◌else◌,
}
use bttracker.Memory.{Bytes, store, load, slice, is_negative32, size_of_int32}
use bttracker.Text.{codes, print_int}
use bttracker.Data.{Config, AnnounceRequest, Peer, PeerAddr}
use bttracker.Platform.{Platform, Reply, ReplyType}
use bttracker.Exec.{
  M, ◌>>=◌, ◌>>◌, pure, fail, or_fault, null_pointer, out_of_bounds, command, append_command,
  get_reply, malloc_unchecked,
}
use bttracker.Random.{randr}
use bttracker.Redis.{is_type, key_prefix, swarm_key, increment_downloads}

abbrev pub peer_size : ℕ
peer_size = 40

-- The object: the fields, and what the block held where the padding is.
pub peer_object : Platform → Bytes → Peer → Bytes
peer_object p block peer =
    store p.endian 4 peer.key
    ++ (store p.endian 4 peer.ipv4_addr
        ++ (store p.endian 8 peer.downloaded
            ++ (store p.endian 8 peer.uploaded
                ++ (store p.endian 8 peer.left ++ (store p.endian 2 peer.port ++ drop 34 block)))))

-- A reader of the object, from a text of Redis that hiredis ends with a zero byte.
unfoldable pub read_peer_addr : Platform → Bytes → Option PeerAddr
read_peer_addr p str =
    let object = str ++ (0 ∷ []) in
    if ltb (length object) 34
    then none
    else some (record {
      ipv4_addr = load p.endian (slice 4 4 object);
      port = load p.endian (slice 32 2 object);
    })

pub peer_of_request : AnnounceRequest → ℕ → Peer
peer_of_request request sockaddr = record {
  key = request.key;
  downloaded = request.downloaded;
  uploaded = request.uploaded;
  left = request.left;
  port = request.port;
  ipv4_addr = if request.ipv4_addr == 0 then sockaddr else request.ipv4_addr;
}

module _ (p : Platform) where
  pub new_peer : AnnounceRequest → ℕ → M p Bytes
  unfolding peer_of_request peer_object
  new_peer request sockaddr = malloc_unchecked p peer_size >>= λ block.
      pure (peer_object p block (peer_of_request request sockaddr))

  -- `bt_peer_addr_t` has 8 bytes.
  pub new_peer_addr : PeerAddr → M p PeerAddr
  new_peer_addr addr = malloc_unchecked p 8 >> pure addr

  pub insert_peer : Config → Bytes → Bytes → Bytes → Bool → M p (Unit {0})
  insert_peer config info_hash_str peer_id peer_data is_seeder = do
    prefix ← key_prefix config
    command p (
        codes "SETEX"
        ∷ swarm_key prefix info_hash_str is_seeder peer_id
        ∷ print_int config.announce_peer_ttl
        ∷ peer_data
        ∷ [])
    pure tt

  pub remove_peer : Config → Bytes → Bytes → Bool → M p (Unit {0})
  remove_peer config info_hash_str peer_id is_seeder = do
    prefix ← key_prefix config
    command p (codes "DEL" ∷ swarm_key prefix info_hash_str is_seeder peer_id ∷ [])
    pure tt

  -- What follows the reply to RENAME.
  pub promoted : Config → Bytes → Option Reply → M p (Unit {0})
  promoted config info_hash_str none = pure tt
  promoted config info_hash_str (some reply) =
      if is_type ReplyType.error reply then pure tt else increment_downloads p config info_hash_str

  pub promote_peer : Config → Bytes → Bytes → M p (Unit {0})
  unfolding promoted
  promote_peer config info_hash_str peer_id = do
    prefix ← key_prefix config
    reply ← command p (
        codes "RENAME"
        ∷ swarm_key prefix info_hash_str false peer_id
        ∷ swarm_key prefix info_hash_str true peer_id
        ∷ [])
    promoted config info_hash_str reply

-- `element[i]` and `element[j]` exchanged; `none` is an index out of the array.
pub swap : List Bytes → ℕ → ℕ → Option (List Bytes)
swap element i j = elim (get_elem? element i) [
  | none ↦ none
  | some aux ↦ elim (get_elem? element j) [
    | none ↦ none
    | some other ↦ some (set (set element i other) j aux)
  ]
]

-- How many keys are drawn: `total_keys > num_want ? num_want : total_keys`, compared as `size_t`
-- and kept as an `int`; the loops do not start on a negative number.
unfoldable pub draw_count : ℕ → ℕ → ℕ
draw_count total_keys num_want =
    let wanted = size_of_int32 num_want in
    let upper_index = (if ltb wanted total_keys then wanted else total_keys) % 2 ^ 32 in
    if is_negative32 upper_index then 0 else upper_index

module _ (p : Platform) where
  -- The loop over the first places, from place `i` on.
  pub shuffle : ℕ → ℕ → ℕ → List Bytes → M p (List Bytes)
  shuffle zero i total_keys element = pure element
  shuffle (suc rounds) i total_keys element = do
    j ← randr p i ((total_keys + 2 ^ 64 - 1) % 2 ^ 32)
    element ← or_fault out_of_bounds (swap element i j)
    shuffle rounds (i + 1) total_keys element

  pub append_gets : List Bytes → M p (Unit {0})
  append_gets [] = pure tt
  append_gets (key ∷ keys) = append_command p (codes "GET" ∷ key ∷ []) >> append_gets keys

  -- The address in a reply that came; its text is NULL unless the key holds a value.
  pub addr_of_reply : Reply → M p PeerAddr
  addr_of_reply reply = elim reply.str [
    | none ↦ fail null_pointer
    | some str ↦ or_fault out_of_bounds (read_peer_addr p str) >>= new_peer_addr p
  ]

  -- The loop that collects the replies; each address is put in front of the list.
  pub collect : ℕ → List PeerAddr → ℕ → M p (List PeerAddr × ℕ)
  unfolding addr_of_reply
  collect zero list count = pure (list, count)
  collect (suc rounds) list count = get_reply p >>= elim [
    | none ↦ collect rounds list count
    | some reply ↦ addr_of_reply reply >>= λ addr. collect rounds (addr ∷ list) (count + 1)
  ]

  -- The list and the new `*peer_count`; NULL is the empty list.
  pub peers_of_reply : ℕ → ℕ → Option Reply → M p (List PeerAddr × ℕ)
  peers_of_reply num_want peer_count none = pure ([], peer_count)
  peers_of_reply num_want peer_count (some reply) =
      if is_type ReplyType.array reply
      then (do
        let total_keys = length reply.element
        let rounds = draw_count total_keys num_want
        element ← shuffle rounds 0 total_keys reply.element
        append_gets (take rounds element)
        collect rounds [] 0)
      else pure ([], 0)

  pub peer_list : Config → Bytes → ℕ → ℕ → Bool → M p (List PeerAddr × ℕ)
  unfolding peers_of_reply
  peer_list config info_hash_str num_want peer_count seeder = do
    prefix ← key_prefix config
    reply ← command p (codes "KEYS" ∷ swarm_key prefix info_hash_str seeder (codes "*") ∷ [])
    peers_of_reply num_want peer_count reply
