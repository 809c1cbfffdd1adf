-- ===== src/Data.antt =====
-- The structures of src/data.h, src/conf.h, src/exit.h and the constants of src/net.h and
-- src/connect.h. Integers are bit patterns: a field of w bits holds a number below 2 ^ w. An enum
-- that is filled from the wire holds any 32-bit number.
use bttracker.Common.{ℕ, ◌^◌, ◌<◌, ◌≡◌, List, Option, length}
use bttracker.Memory.{Bytes}

-- `bt_action`
abbrev pub action_connect : ℕ
action_connect = 0

abbrev pub action_announce : ℕ
action_announce = 1

abbrev pub action_scrape : ℕ
action_scrape = 2

abbrev pub action_error : ℕ
action_error = 3

-- `bt_announce_event`
abbrev pub event_none : ℕ
event_none = 0

abbrev pub event_completed : ℕ
event_completed = 1

abbrev pub event_started : ℕ
event_started = 2

abbrev pub event_stopped : ℕ
event_stopped = 3

-- `bt_exit`
pub data ExitCode : Type 0 where
  ok config_error network_error malloc_error redis : ExitCode

-- `bt_req_t`
pub record Request : Type 0 where
  pub connection_id : ℕ
  pub action : ℕ
  pub transaction_id : ℕ

-- `bt_connection_resp_t`
pub record ConnectionResponse : Type 0 where
  pub action : ℕ
  pub transaction_id : ℕ
  pub connection_id : ℕ

-- `bt_announce_req_t`
pub record AnnounceRequest : Type 0 where
  pub connection_id : ℕ
  pub action : ℕ
  pub transaction_id : ℕ
  pub ipv4_addr : ℕ
  pub port : ℕ
  pub info_hash : Bytes
  pub peer_id : Bytes
  pub downloaded : ℕ
  pub left : ℕ
  pub uploaded : ℕ
  pub key : ℕ
  pub num_want : ℕ
  pub event : ℕ

-- `bt_announce_resp_t`
pub record AnnounceResponse : Type 0 where
  pub action : ℕ
  pub transaction_id : ℕ
  pub interval : ℕ
  pub leechers : ℕ
  pub seeders : ℕ

-- `bt_scrape_req_t`; `info_hash` is the array's storage, an array of 20 pointers.
pub record ScrapeRequest : Type 0 where
  pub connection_id : ℕ
  pub action : ℕ
  pub transaction_id : ℕ
  pub info_hash_len : ℕ
  pub info_hash : Bytes

-- `bt_torrent_stats_t`
pub record TorrentStats : Type 0 where
  pub seeders : ℕ
  pub downloads : ℕ
  pub leechers : ℕ

-- `bt_scrape_resp_t`
pub record ScrapeResponse : Type 0 where
  pub action : ℕ
  pub transaction_id : ℕ
  pub scrape_entries : List TorrentStats

-- `bt_peer_addr_t`
pub record PeerAddr : Type 0 where
  pub ipv4_addr : ℕ
  pub port : ℕ

-- `bt_peer_t`
pub record Peer : Type 0 where
  pub key : ℕ
  pub ipv4_addr : ℕ
  pub downloaded : ℕ
  pub uploaded : ℕ
  pub left : ℕ
  pub port : ℕ

-- `bt_response_buffer_t`
pub record ResponseBuffer : Type 0 where
  pub length : ℕ
  pub data_bytes : Bytes

-- `bt_restriction`
pub data Restriction : Type 0 where
  unrestricted whitelist blacklist : Restriction

-- `bt_config_t`. A string that the file does not give is NULL.
pub record Config : Type 0 where
  pub bttracker_addr : Option Bytes
  pub bttracker_port : ℕ
  pub bttracker_log_level_mask : ℕ
  pub thread_max : ℕ
  pub thread_max_idle_time : ℕ
  pub announce_wait_time : ℕ
  pub announce_peer_ttl : ℕ
  pub announce_max_numwant : ℕ
  pub redis_socket_path : Option Bytes
  pub redis_host : Option Bytes
  pub redis_port : ℕ
  pub redis_timeout : ℕ
  pub redis_db : ℕ
  pub redis_key_prefix : Option Bytes
  pub info_hash_restriction : Restriction

-- `BT_RECV_BUFLEN`
abbrev pub recv_buflen : ℕ
recv_buflen = 1496

-- `BT_PROTOCOL_ID`
abbrev pub protocol_id : ℕ
protocol_id = 0x41727101980

-- `BT_ACTIVE_CONNECTION_TTL`
abbrev pub active_connection_ttl : ℕ
active_connection_ttl = 120

-- The ranges of the fields of a request.
pub record IsRequest (req : Request) : Type 0 where
  pub connection_id : req.connection_id < 2 ^ 64
  pub action : req.action < 2 ^ 32
  pub transaction_id : req.transaction_id < 2 ^ 32

-- The ranges of the fields of an announce request.
pub record IsAnnounce (req : AnnounceRequest) : Type 0 where
  pub connection_id : req.connection_id < 2 ^ 64
  pub action : req.action < 2 ^ 32
  pub transaction_id : req.transaction_id < 2 ^ 32
  pub ipv4_addr : req.ipv4_addr < 2 ^ 32
  pub port : req.port < 2 ^ 16
  pub info_hash : length req.info_hash ≡ 20
  pub peer_id : length req.peer_id ≡ 20
  pub downloaded : req.downloaded < 2 ^ 64
  pub left : req.left < 2 ^ 64
  pub uploaded : req.uploaded < 2 ^ 64
  pub key : req.key < 2 ^ 32
  pub num_want : req.num_want < 2 ^ 32
  pub event : req.event < 2 ^ 32
