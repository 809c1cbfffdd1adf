-- ===== src/Redis/Returns.antt =====
-- With a key prefix, the functions on connections and torrents end whatever Redis answers;
-- the statistics also need each reply to come.
use bttracker.Common.{ℕ, ◌≡◌, refl, ap, Bool, true, false, Option, some}
use bttracker.Memory.{Bytes}
use bttracker.Data.{Config, TorrentStats, Restriction, unrestricted, whitelist, blacklist}
use bttracker.Platform.{Platform, World, Connection, null, failed, established}
use bttracker.Platform.Laws.{HasReplies}
use bttracker.Exec.{Outcome, done, command, get_reply, or_fault, null_pointer}
use bttracker.Exec.Returns.{
  Returns, Returns-pure, Gives-then, command-Returns, append_command-Returns, Gives-or_fault,
}
use bttracker.Redis.{
  address, key_prefix, redis_connect, redis_ping, connection_valid, insert_connection,
  info_hash_blacklisted, element_count, download_count, reply_to_free, get_torrent_stats,
}
use bttracker.Redis.Effects.{key_prefix-done}

module _ (p : Platform) where
  pub redis_ping-Returns : Returns (redis_ping p)
  unfolding redis_ping
  redis_ping-Returns = Gives-then _ _ (command-Returns p _) (λ reply. Returns-pure _)

  connect_cases :
      (unix_sock host : Option Bytes) (port timeout db : ℕ) (w : World p) (c : Connection)
      → (p.redis_connect (address unix_sock host port) timeout w.redis).0 ≡ c
      → (b : Bool) × ((redis_connect p unix_sock host port timeout db w).0 ≡ done b) × Unit {0}
  unfolding redis_connect command
  connect_cases unix_sock host port timeout db w null e = (false, rw (e, redis_connect), tt)
  connect_cases unix_sock host port timeout db w failed e = (false, rw (e, redis_connect), tt)
  connect_cases unix_sock host port timeout db w established e = (true, rw (e, redis_connect), tt)

  pub redis_connect-Returns :
      (unix_sock host : Option Bytes) (port timeout db : ℕ)
      → Returns (redis_connect p unix_sock host port timeout db)
  redis_connect-Returns unix_sock host port timeout db = record {
    at = λ w.
        connect_cases unix_sock host port timeout db w
          (p.redis_connect (address unix_sock host port) timeout w.redis).0 refl;
  }

module _ (p : Platform) (config : Config) (prefix : Bytes)
    (has_prefix : config.redis_key_prefix ≡ some prefix) where
  key_prefix-Returns : Returns (key_prefix {p = p} config)
  key_prefix-Returns = record {
    at = λ w. (
      prefix,
      ap (λ (r : Outcome Bytes × World p). r.0) (key_prefix-done p config prefix has_prefix w),
      tt,
    );
  }

  pub connection_valid-Returns : (id : ℕ) → Returns (connection_valid p config id)
  unfolding connection_valid
  connection_valid-Returns id =
      Gives-then _ _ key_prefix-Returns
        (λ b. Gives-then _ _ (command-Returns p _) (λ r. Returns-pure _))

  pub insert_connection-Returns : (id : ℕ) → Returns (insert_connection p config id)
  unfolding insert_connection
  insert_connection-Returns id =
      Gives-then _ _ key_prefix-Returns
        (λ b. Gives-then _ _ (command-Returns p _) (λ r. Returns-pure tt))

  asked-Returns :
      (r : Restriction)
      → config.info_hash_restriction ≡ r
      → (hash : Bytes) → Returns (info_hash_blacklisted p config hash)
  unfolding info_hash_blacklisted
  asked-Returns whitelist e hash =
      rw (e, info_hash_blacklisted)
        (Gives-then _ _ key_prefix-Returns
          (λ b. Gives-then _ _ (command-Returns p _) (λ r. Returns-pure _)))
  asked-Returns blacklist e hash =
      rw (e, info_hash_blacklisted)
        (Gives-then _ _ key_prefix-Returns
          (λ b. Gives-then _ _ (command-Returns p _) (λ r. Returns-pure _)))
  asked-Returns unrestricted e hash = rw (e, info_hash_blacklisted) (Returns-pure _)

  pub info_hash_blacklisted-Returns : (hash : Bytes) → Returns (info_hash_blacklisted p config hash)
  info_hash_blacklisted-Returns hash = asked-Returns config.info_hash_restriction refl hash

  reply_to_free-Returns : HasReplies p → Returns (reply_to_free p)
  unfolding reply_to_free get_reply
  reply_to_free-Returns replies = record {
    at = λ w. (replies.reply w.redis, rw (replies.get_reply_some w.redis), tt);
  }

  -- This one rests on the replies to its queued commands.
  pub get_torrent_stats-Returns :
      HasReplies p
      → (hash : Bytes) (stats : TorrentStats)
      → Returns (get_torrent_stats p config hash (some stats))
  unfolding get_torrent_stats
  get_torrent_stats-Returns replies hash stats = Gives-then _ _ key_prefix-Returns (λ b.
      Gives-then _ _ (append_command-Returns p _) (λ _.
        Gives-then _ _ (append_command-Returns p _) (λ _.
          Gives-then _ _ (append_command-Returns p _) (λ _.
            Gives-then _ _ (reply_to_free-Returns replies) (λ first.
              Gives-then (or_fault null_pointer (some stats)) _
                (Gives-or_fault null_pointer (some stats) stats refl tt)
                (λ target. Gives-then _ _ (reply_to_free-Returns replies) (λ second.
                  Gives-then _ _ (reply_to_free-Returns replies) (λ third.
                    let leeched : TorrentStats = record target {
                      seeders = element_count first;
                      leechers = element_count second;
                    } in
                    Returns-pure (record leeched { downloads = download_count third })))))))))
