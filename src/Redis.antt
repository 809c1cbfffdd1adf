-- ===== src/Redis.antt =====
-- The functions of src/data.c that talk to Redis about connections and torrents. A command is the
-- list of words that hiredis makes of its format. Logging is not modelled, nor the release of
-- replies that came.
pub mod Effects
pub mod Lists
pub mod Stats
pub mod Outages
pub mod Keys
pub mod Returns
pub mod Pipelines
use bttracker.Common.{
  ℕ, ◌+◌, ◌-◌, ◌^◌, ◌%◌, Bool, true, false, not, ◌&&◌, Option, none, some, List, [], ◌∷◌, ◌++◌,
  length, ltb, leb, ◌==◌, ◌||◌, ◌*◌, if◌then◌else◌,
}
use Prim.Native.Nat.{min}
use bttracker.Common.Int.{ℤ, eqb_ℤ, is_positive}
use bttracker.Memory.{Bytes, store}
use bttracker.Text.{codes, print_int}
use bttracker.Data.{
  Config, TorrentStats, Restriction, unrestricted, whitelist, blacklist, active_connection_ttl,
}
use bttracker.Platform.{
  Platform, World, Reply, ReplyType, Address, unix_socket, tcp, Connection, null, failed,
  established,
}
use bttracker.Exec.{
  M, ◌>>=◌, ◌>>◌, pure, fail, or_fault, null_pointer, bad_free, command, append_command, get_reply,
  done,
}

-- `reply->type == t`
abbrev pub is_type : ReplyType → Reply → Bool
is_type t r = elim t [
  | ReplyType.string ↦ elim r.type [ ReplyType.string ↦ true | _ ↦ false ]
  | ReplyType.array ↦ elim r.type [ ReplyType.array ↦ true | _ ↦ false ]
  | ReplyType.integer ↦ elim r.type [ ReplyType.integer ↦ true | _ ↦ false ]
  | ReplyType.nil ↦ elim r.type [ ReplyType.nil ↦ true | _ ↦ false ]
  | ReplyType.status ↦ elim r.type [ ReplyType.status ↦ true | _ ↦ false ]
  | ReplyType.error ↦ elim r.type [ ReplyType.error ↦ true | _ ↦ false ]
]

-- `%s` with `config->redis_key_prefix`, which is NULL if the file gives no prefix.
pub key_prefix : {p : Platform} → Config → M p Bytes
key_prefix config = elim config.redis_key_prefix [ some b ↦ pure b | none ↦ fail null_pointer ]

-- The keys.
pub connection_key : Platform → Bytes → ℕ → Bytes
connection_key p prefix connection_id = prefix ++ (codes ":conn:" ++ store p.endian 8 connection_id)

unfoldable pub torrent_key : Bytes → Bytes → Bytes
torrent_key prefix info_hash_str = prefix ++ (codes ":ih:" ++ info_hash_str)

unfoldable pub swarm_key : Bytes → Bytes → Bool → Bytes → Bytes
swarm_key prefix info_hash_str seeder peer_id =
    let peer_prefix = if seeder then codes "sd" else codes "lc" in
    prefix
    ++ (codes ":pr:" ++ (info_hash_str ++ (codes ":" ++ (peer_prefix ++ (codes ":" ++ peer_id)))))

-- A socket path is preferred to a host.
address : Option Bytes → Option Bytes → ℕ → Address
address (some path) host port = unix_socket path
address none host port = tcp host port

-- Whether the reply to PING is no error.
pub ping_ok : Option Reply → Bool
ping_ok none = false
ping_ok (some reply) = not (is_type ReplyType.error reply)

pub reply_valid : Option Reply → Bool
reply_valid none = false
reply_valid (some reply) = not (is_type ReplyType.error reply)

-- The answer that each restriction draws from the reply to SISMEMBER.
pub not_whitelisted : Option Reply → Bool
not_whitelisted none = true
not_whitelisted (some reply) = is_type ReplyType.integer reply && eqb_ℤ reply.integer 0

pub is_blacklisted : Option Reply → Bool
is_blacklisted none = true
is_blacklisted (some reply) = is_type ReplyType.integer reply && is_positive reply.integer

module _ (p : Platform) where
  -- Whether there is a connection. A refused SELECT is not noticed.
  unfoldable pub redis_connect : Option Bytes → Option Bytes → ℕ → ℕ → ℕ → M p Bool
  unfolding address
  redis_connect unix_sock host port timeout db w =
      let (conn, redis) = p.redis_connect (address unix_sock host port) timeout w.redis in
      let selected : M p Bool = command p (codes "SELECT" ∷ print_int db ∷ []) >> pure true in
      elim conn [
        | null ↦ (done false, record w { redis = redis })
        | failed ↦ (done false, record w { redis = redis })
        | established ↦ selected (record w { redis = redis })
      ]

  pub redis_ping : M p Bool
  unfolding ping_ok
  redis_ping = do reply ← command p (codes "PING" ∷ []); pure (ping_ok reply)

  pub insert_connection : Config → ℕ → M p (Unit {0})
  insert_connection config connection_id = do
    prefix ← key_prefix config
    command p (
        codes "SETEX"
        ∷ connection_key p prefix connection_id
        ∷ print_int active_connection_ttl
        ∷ codes "1"
        ∷ [])
    pure tt

  pub connection_valid : Config → ℕ → M p Bool
  unfolding reply_valid
  connection_valid config connection_id = do
    prefix ← key_prefix config
    reply ← command p (codes "GET" ∷ connection_key p prefix connection_id ∷ [])
    pure (reply_valid reply)

  pub increment_downloads : Config → Bytes → M p (Unit {0})
  increment_downloads config info_hash_str = do
    prefix ← key_prefix config
    command p (codes "HINCRBY" ∷ torrent_key prefix info_hash_str ∷ codes "downs" ∷ codes "1" ∷ [])
    pure tt

  pub info_hash_blacklisted : Config → Bytes → M p Bool
  unfolding not_whitelisted is_blacklisted
  info_hash_blacklisted config info_hash_str = elim config.info_hash_restriction [
    | whitelist ↦ do
      prefix ← key_prefix config
      reply ← command p (codes "SISMEMBER" ∷ (prefix ++ codes ":ih:wl") ∷ info_hash_str ∷ [])
      pure (not_whitelisted reply)
    | blacklist ↦ do
      prefix ← key_prefix config
      reply ← command p (codes "SISMEMBER" ∷ (prefix ++ codes ":ih:bl") ∷ info_hash_str ∷ [])
      pure (is_blacklisted reply)
    | unrestricted ↦ pure false
  ]

-- `strtoimax(str, NULL, 10)`, as a 64-bit pattern: blanks, a sign, digits up to the first other
-- byte, and the nearest limit for a number out of range.
is_space : ℕ → Bool
is_space c = c == 32 || (leb 9 c && leb c 13)

digits_value : ℕ → Bytes → ℕ
digits_value acc [] = acc
digits_value acc (c ∷ cs) =
    let rest = digits_value (acc * 10 + (c - b'0')) cs in
    if leb b'0' c && leb c b'9' then rest else acc

signed_value : Bytes → ℕ
unfolding digits_value
signed_value [] = 0
signed_value (c ∷ cs) =
    if c == b'-'
    then (2 ^ 64 - min (digits_value 0 cs) (2 ^ 63)) % 2 ^ 64
    else if c == b'+'
    then min (digits_value 0 cs) (2 ^ 63 - 1)
    else min (digits_value 0 (c ∷ cs)) (2 ^ 63 - 1)

pub strtoimax : Bytes → ℕ
unfolding is_space signed_value
strtoimax [] = 0
strtoimax (c ∷ cs) = let rest = strtoimax cs in if is_space c then rest else signed_value (c ∷ cs)

-- The counts that the three replies give, as `int32_t`.
pub element_count : Reply → ℕ
element_count reply = length reply.element % 2 ^ 32

pub download_count : Reply → ℕ
unfolding strtoimax
download_count reply = elim reply.str [ none ↦ 0 | some str ↦ strtoimax str % 2 ^ 32 ]

module _ (p : Platform) where
  -- `redisGetReply`, the use of its reply and `freeReplyObject`. Where no reply comes, hiredis leaves
  -- `reply` as it was, uninitialised or freed before, and that is freed.
  unfoldable pub reply_to_free : M p Reply
  reply_to_free = get_reply p >>= elim [ some reply ↦ pure reply | none ↦ fail bad_free ]

  -- `stats` is the pointer and what the structure behind it holds. It is first written through after
  -- the first reply.
  pub get_torrent_stats : Config → Bytes → Option TorrentStats → M p TorrentStats
  unfolding element_count download_count
  get_torrent_stats config info_hash_str stats = do
    prefix ← key_prefix config
    append_command p (codes "KEYS" ∷ swarm_key prefix info_hash_str true (codes "*") ∷ [])
    append_command p (codes "KEYS" ∷ swarm_key prefix info_hash_str false (codes "*") ∷ [])
    append_command p (codes "HGET" ∷ torrent_key prefix info_hash_str ∷ codes "downs" ∷ [])
    first ← reply_to_free
    target ← or_fault null_pointer stats
    let seeded : TorrentStats = record target { seeders = element_count first }
    second ← reply_to_free
    let leeched : TorrentStats = record seeded { leechers = element_count second }
    third ← reply_to_free
    pure (record leeched { downloads = download_count third })
