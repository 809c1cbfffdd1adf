-- ===== src/Conf.antt =====
-- src/conf.c over a parsed GKeyFile: the two lookups that the loader makes.
pub mod Loaded
use bttracker.Common.{
  ℕ, ◌+◌, ◌%◌, ◌^◌, Option, none, some, List, [], ◌∷◌, if◌then◌else◌, Bool, true, false, ◌==◌, ◌&&◌,
}
use bttracker.Memory.{Bytes}
use bttracker.Text.{codes, str_eq}
use bttracker.Data.{Config, Restriction, unrestricted, whitelist, blacklist}

-- A lookup takes a group and a key. A missing text is NULL; an integer is the bit pattern of the
-- `gint` that GLib returns, 0 for a missing or malformed one.
pub record KeyFile : Type 0 where
  pub get_string : Bytes → Bytes → Option Bytes
  pub get_integer : Bytes → Bytes → ℕ

-- The outcome of the loader: `false` for a file that cannot be loaded, and the fault of a
-- `strcmp` on NULL.
pub data Load : Type 0 where
  refused : Load
  crashed : Load
  loaded : Config → Load

pub restriction_of : Bytes → Restriction
restriction_of s =
    if str_eq s (codes "whitelist")
    then whitelist
    else if str_eq s (codes "blacklist")
    then blacklist
    else unrestricted

-- The priorities of syslog.h.
pub log_level_of : Bytes → ℕ
log_level_of s =
    if str_eq s (codes "DEBUG")
    then 7
    else if str_eq s (codes "INFO")
    then 6
    else if str_eq s (codes "NOTICE")
    then 5
    else if str_eq s (codes "WARNING")
    then 4
    else if str_eq s (codes "ERR")
    then 3
    else if str_eq s (codes "CRIT")
    then 2
    else if str_eq s (codes "ALERT")
    then 1
    else if str_eq s (codes "EMERG")
    then 0
    else 6

module _ (file : KeyFile) where
  -- The assignments, given the two texts that are compared.
  pub fill : Bytes → Bytes → Config
  fill restriction level =
      let tracker = codes "BtTracker" in
      let threading = codes "Threading" in
      let announce = codes "Announce" in
      let redis = codes "Redis" in
      record {
        bttracker_addr = file.get_string tracker (codes "Address");
        bttracker_port = file.get_integer tracker (codes "Port") % 2 ^ 16;
        bttracker_log_level_mask = log_level_of level;
        thread_max = file.get_integer threading (codes "MaxThreads") % 2 ^ 16;
        thread_max_idle_time = file.get_integer threading (codes "MaxIdleTime");
        announce_wait_time = file.get_integer announce (codes "WaitTime");
        announce_peer_ttl = file.get_integer announce (codes "PeerTTL");
        announce_max_numwant = file.get_integer announce (codes "MaxNumWant") % 2 ^ 16;
        redis_socket_path = file.get_string redis (codes "SocketPath");
        redis_host = file.get_string redis (codes "Host");
        redis_port = file.get_integer redis (codes "Port") % 2 ^ 16;
        redis_timeout = file.get_integer redis (codes "Timeout");
        redis_db = file.get_integer redis (codes "DB") % 2 ^ 16;
        redis_key_prefix = file.get_string redis (codes "KeyPrefix");
        info_hash_restriction = restriction_of restriction;
      }

  -- The restriction is compared before the log level is looked up.
  pub load_file : Load
  load_file = elim (file.get_string (codes "Announce") (codes "InfoHashRestriction")) [
    | none ↦ crashed
    | some restriction ↦ elim (file.get_string (codes "BtTracker") (codes "LogLevel")) [
      | none ↦ crashed
      | some level ↦ loaded (fill restriction level)
    ]
  ]

-- `none` is a file that GLib cannot load.
pub load_config : Option KeyFile → Load
load_config none = refused
load_config (some file) = load_file file
