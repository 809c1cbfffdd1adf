-- ===== src/Redis/Stats.antt =====
-- What `bt_get_torrent_stats` asks for, and what it makes of the three replies.
use bttracker.Common.{◌%◌, ◌^◌, ◌≡◌, true, false, Option, some, [], ◌∷◌, length}
use bttracker.Memory.{Bytes}
use bttracker.Text.{codes}
use bttracker.Data.{Config, TorrentStats}
use bttracker.Platform.{Platform, World, Reply}
use bttracker.Exec.{done, append_command, get_reply}
use bttracker.Redis.{
  swarm_key, torrent_key, element_count, download_count, reply_to_free, get_torrent_stats,
}
use bttracker.Redis.Effects.{key_prefix-done}

module _ (p : Platform) (config : Config) (prefix : Bytes)
    (has_prefix : config.redis_key_prefix ≡ some prefix) (info_hash_str : Bytes) (w : World p) where
  -- The store after the three commands were queued, and after the first replies were taken.
  abbrev pub stats_asked : p.Redis
  stats_asked =
      p.redis_append_command (codes "HGET" ∷ torrent_key prefix info_hash_str ∷ codes "downs" ∷ [])
        (p.redis_append_command
          (codes "KEYS" ∷ swarm_key prefix info_hash_str false (codes "*") ∷ [])
          (p.redis_append_command
            (codes "KEYS" ∷ swarm_key prefix info_hash_str true (codes "*") ∷ []) w.redis))

  abbrev pub reply1 : Option Reply × p.Redis
  reply1 = p.redis_get_reply stats_asked

  abbrev pub reply2 : Option Reply × p.Redis
  reply2 = p.redis_get_reply reply1.1

  abbrev pub reply3 : Option Reply × p.Redis
  reply3 = p.redis_get_reply reply2.1

  -- With a key prefix, a structure to write to and all three replies, the counts of seeders and
  -- leechers are the numbers of keys of the first two replies, and that of downloads is the one that
  -- the third gives, whatever the structure held.
  pub get_torrent_stats-counts :
      (stats : TorrentStats) (r1 r2 r3 : Reply)
      → reply1.0 ≡ some r1
      → reply2.0 ≡ some r2
      → reply3.0 ≡ some r3
      → get_torrent_stats p config info_hash_str (some stats) w ≡ (
        done (record {
          seeders = length r1.element % 2 ^ 32;
          downloads = download_count r3;
          leechers = length r2.element % 2 ^ 32;
        }),
        record w { redis = reply3.1 },
      )
  unfolding get_torrent_stats append_command get_reply reply_to_free element_count
  get_torrent_stats-counts stats r1 r2 r3 a b c =
      rw (key_prefix-done p config prefix has_prefix w) (rw a (rw b (rw c)))
