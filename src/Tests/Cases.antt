-- ===== src/Tests/Cases.antt =====
-- The requests, the configuration and the states of the store that the examples use.
use bttracker.Common.{ℕ, ◌-◌, ◌^◌, Option, none, some, List, [], ◌∷◌, ◌++◌}
use bttracker.Memory.{Bytes}
use bttracker.Text.{codes}
use bttracker.Data.{
  Config, Request, AnnounceRequest, AnnounceResponse, ScrapeResponse, PeerAddr, Peer, Restriction,
  unrestricted, protocol_id,
}
use bttracker.Platform.{World, Reply, ReplyType}
use bttracker.Common.Int.{pos}
use bttracker.Conf.{KeyFile}
use bttracker.Net.Fields.{to_packet}
use bttracker.Net.Requests.{request_fields, announce_fields}
use bttracker.Pool.{Job}
use bttracker.Tests.Hosts.{Db, plain, offline, forgetful, refusing, steady, listing, zeros}

abbrev pub prefix : Bytes
prefix = codes "bt"

abbrev pub config_of : Restriction → Config
config_of restriction = record {
  bttracker_addr = some (codes "127.0.0.1");
  bttracker_port = 1234;
  bttracker_log_level_mask = 6;
  thread_max = 10;
  thread_max_idle_time = 5000;
  announce_wait_time = 1800;
  announce_peer_ttl = 2700;
  announce_max_numwant = 80;
  redis_socket_path = none;
  redis_host = some (codes "127.0.0.1");
  redis_port = 6379;
  redis_timeout = 2000;
  redis_db = 0;
  redis_key_prefix = some prefix;
  info_hash_restriction = restriction;
}

abbrev pub config : Config
config = config_of unrestricted

abbrev pub request_of : ℕ → Request
request_of action = record { connection_id = protocol_id; action = action; transaction_id = 77 }

abbrev pub hash : Bytes
hash = codes "abcdefghijklmnopqrst"

abbrev pub hash_text : Bytes
hash_text = codes "6162636465666768696a6b6c6d6e6f7071727374"

abbrev pub announce_request : AnnounceRequest
announce_request = record {
  connection_id = 0x0123456789abcdef;
  action = 1;
  transaction_id = 77;
  ipv4_addr = 0;
  port = 6881;
  info_hash = hash;
  peer_id = codes "-XX0001-000000000001";
  downloaded = 5;
  left = 10;
  uploaded = 7;
  key = 0xdeadbeef;
  num_want = 2 ^ 32 - 1;
  event = 2;
}

abbrev pub announce_response : AnnounceResponse
announce_response = record {
  action = 1;
  transaction_id = 77;
  interval = 1800;
  leechers = 3;
  seeders = 2;
}

abbrev pub peers : List PeerAddr
peers =
    record { ipv4_addr = 0x7f000001; port = 6881 }
    ∷ record { ipv4_addr = 0x0a000002; port = 51413 }
    ∷ []

abbrev pub scrape_response : ScrapeResponse
scrape_response = record {
  action = 2;
  transaction_id = 77;
  scrape_entries = record { seeders = 1; downloads = 2; leechers = 3 } ∷ [];
}

abbrev pub peer : Peer
peer = record {
  key = 1;
  ipv4_addr = 0x7f000001;
  downloaded = 5;
  uploaded = 7;
  left = 10;
  port = 6881;
}

-- Every key holds an object of 40 bytes.
abbrev pub full_db : Db
full_db = record { texts = λ key. some (zeros 40); pending = [] }

abbrev pub full_world : World plain
full_world = record { redis = full_db; heap = 0; rng = 0 }

abbrev pub forgetful_world : World forgetful
forgetful_world = record { redis = full_db; heap = 0; rng = 0 }

abbrev pub refusing_world : World refusing
refusing_world = record { redis = full_db; heap = 0; rng = 0 }

abbrev pub offline_world : World offline
offline_world = record { redis = full_db; heap = 0; rng = 0 }

-- The reply to KEYS.
abbrev pub key_listing : Reply
key_listing = record { type = ReplyType.array; integer = pos 0; str = none; element = listing }

abbrev pub job_of : ℕ → Job
job_of action = record {
  buff = to_packet (request_fields (request_of action) ++ []) ++ zeros 82;
  buflen = 98;
  from_addr = 127 ∷ 0 ∷ 0 ∷ 1 ∷ [];
}

-- A file in which every text is `text`.
abbrev pub key_file : Option Bytes → KeyFile
key_file text = record { get_string = λ group key. text; get_integer = λ group key. 70000 }

abbrev pub steady_world : World steady
steady_world = record { redis = full_db; heap = 0; rng = 0 }

abbrev pub announce_packet : Bytes
announce_packet = to_packet (announce_fields announce_request) ++ zeros 3
