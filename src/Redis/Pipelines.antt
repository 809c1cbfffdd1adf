-- ===== src/Redis/Pipelines.antt =====
-- The replies of Redis that the functions on connections and torrents read.
use bttracker.Common.{ℕ, suc, ◌≡◌, refl, Option, some, none, List}
use bttracker.Memory.{Bytes}
use bttracker.Data.{Config, TorrentStats, Restriction, unrestricted, whitelist, blacklist}
use bttracker.Platform.{Platform, World, Reply, Connection, null, failed, established}
use bttracker.Platform.Pipelines.{IsUnread, HasPipeline}
use bttracker.Exec.{◌>>=◌, pure, command, or_fault, null_pointer}
use bttracker.Exec.Posts.{Post}
use bttracker.Exec.Pipelines.{
  Leaves, Leaves-pure, Leaves-then, command-Leaves, append_command-Leaves, get_reply-Leaves,
  Leaves-or_fault,
}
use bttracker.Redis.{
  address, key_prefix, redis_connect, redis_ping, connection_valid, insert_connection,
  increment_downloads, info_hash_blacklisted, reply_to_free, get_torrent_stats,
}

module _ (p : Platform) (pipe : HasPipeline p) where
  connect_cases :
      (unix_sock host : Option Bytes) (port timeout db : ℕ) (w : World p) (c : Connection)
      → (p.redis_connect (address unix_sock host port) timeout w.redis).0 ≡ c
      → Post
          (λ _. IsUnread 0 (pipe.unread (redis_connect p unix_sock host port timeout db w).1.redis))
          (redis_connect p unix_sock host port timeout db w).0
  unfolding redis_connect command
  connect_cases unix_sock host port timeout db w null e =
      rw (e, redis_connect) (pipe.unread_connect _ timeout w.redis)
  connect_cases unix_sock host port timeout db w failed e =
      rw (e, redis_connect) (pipe.unread_connect _ timeout w.redis)
  connect_cases unix_sock host port timeout db w established e =
      rw (e, redis_connect) (pipe.unread_command 0 _ _ (pipe.unread_connect _ timeout w.redis))

  pub redis_connect-Leaves :
      (n : ℕ) (unix_sock host : Option Bytes) (port timeout db : ℕ)
      → Leaves pipe n 0 (redis_connect p unix_sock host port timeout db)
  redis_connect-Leaves n unix_sock host port timeout db = record {
    at = λ w h.
        connect_cases unix_sock host port timeout db w
          (p.redis_connect (address unix_sock host port) timeout w.redis).0 refl;
  }

  reply_to_free-Leaves : (n : ℕ) → Leaves pipe (suc n) n (reply_to_free p)
  unfolding reply_to_free
  reply_to_free-Leaves n =
      Leaves-then _ _ (get_reply-Leaves pipe n)
        (elim [ none ↦ record { at = λ w h. tt } | some reply ↦ Leaves-pure n reply ])

  module _ (n : ℕ) where
    pub redis_ping-Leaves : Leaves pipe n n (redis_ping p)
    unfolding redis_ping
    redis_ping-Leaves = Leaves-then _ _ (command-Leaves pipe n _) (λ reply. Leaves-pure n _)

    prefix_cases :
        (config : Config) (o : Option Bytes)
        → config.redis_key_prefix ≡ o
        → Leaves pipe n n (key_prefix {p = p} config)
    unfolding key_prefix
    prefix_cases config none e = rw (e, key_prefix) (record { at = λ w h. tt })
    prefix_cases config (some b) e = rw (e, key_prefix) (Leaves-pure n b)

    pub key_prefix-Leaves : (config : Config) → Leaves pipe n n (key_prefix {p = p} config)
    key_prefix-Leaves config = prefix_cases config config.redis_key_prefix refl

    -- A command about a key, whose reply gives the value.
    pub asks-Leaves :
        {A : Type 0} (config : Config) (words : Bytes → List Bytes) (answer : Option Reply → A)
        → Leaves pipe n n (
            key_prefix config >>= λ prefix.
            command p (words prefix) >>= λ reply. pure (answer reply))
    asks-Leaves config words answer =
        Leaves-then (key_prefix config) _ (key_prefix-Leaves config) (λ prefix.
          Leaves-then (command p (words prefix)) _ (command-Leaves pipe n _)
            (λ reply. Leaves-pure n _))

    pub insert_connection-Leaves :
        (config : Config) (id : ℕ) → Leaves pipe n n (insert_connection p config id)
    unfolding insert_connection
    insert_connection-Leaves config id = asks-Leaves config _ _

    pub connection_valid-Leaves :
        (config : Config) (id : ℕ) → Leaves pipe n n (connection_valid p config id)
    unfolding connection_valid
    connection_valid-Leaves config id = asks-Leaves config _ _

    pub increment_downloads-Leaves :
        (config : Config) (hash : Bytes) → Leaves pipe n n (increment_downloads p config hash)
    unfolding increment_downloads
    increment_downloads-Leaves config hash = asks-Leaves config _ _

    asked-Leaves :
        (config : Config) (hash : Bytes) (r : Restriction)
        → config.info_hash_restriction ≡ r
        → Leaves pipe n n (info_hash_blacklisted p config hash)
    unfolding info_hash_blacklisted
    asked-Leaves config hash whitelist e = rw (e, info_hash_blacklisted) (asks-Leaves config _ _)
    asked-Leaves config hash blacklist e = rw (e, info_hash_blacklisted) (asks-Leaves config _ _)
    asked-Leaves config hash unrestricted e = rw (e, info_hash_blacklisted) (Leaves-pure n _)

    pub info_hash_blacklisted-Leaves :
        (config : Config) (hash : Bytes) → Leaves pipe n n (info_hash_blacklisted p config hash)
    info_hash_blacklisted-Leaves config hash =
        asked-Leaves config hash config.info_hash_restriction refl

    -- Three commands go out, and three replies are read.
    pub get_torrent_stats-Leaves :
        (config : Config) (hash : Bytes) (stats : Option TorrentStats)
        → Leaves pipe n n (get_torrent_stats p config hash stats)
    unfolding get_torrent_stats
    get_torrent_stats-Leaves config hash stats =
        Leaves-then _ _ (key_prefix-Leaves config) (λ prefix.
          Leaves-then _ _ (append_command-Leaves pipe n _) (λ _.
            Leaves-then _ _ (append_command-Leaves pipe (suc n) _) (λ _.
              Leaves-then _ _ (append_command-Leaves pipe (suc (suc n)) _) (λ _.
                Leaves-then _ _ (reply_to_free-Leaves (suc (suc n))) (λ _.
                  Leaves-then (or_fault null_pointer stats) _
                    (Leaves-or_fault (suc (suc n)) null_pointer stats)
                    (λ _.
                      Leaves-then _ _ (reply_to_free-Leaves (suc n))
                        (λ _. Leaves-then _ _ (reply_to_free-Leaves n) (λ _. Leaves-pure n _))))))))
