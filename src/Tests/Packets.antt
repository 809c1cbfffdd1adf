-- ===== src/Tests/Packets.antt =====
-- The packets of a few requests and responses.
use bttracker.Common.{length, ◌≡◌, refl, arith, ◌++◌}
use bttracker.Memory.{little}
use bttracker.ByteOrder.{glibc}
use bttracker.Common.{All, ◌≤◌}
use bttracker.Tests.Laws.{zeros-IsByte}
use bttracker.Announce.Logs.{IsPrintable, log_announce_request, log_announce_request-Printable}
use bttracker.Data.{IsRequest, IsAnnounce}
use bttracker.Net.{read_announce_request_data}
use bttracker.Net.Fields.{to_packet}
use bttracker.Net.Requests.{announce_fields, read_announce_fields}
use bttracker.Tests.Hosts.{zeros}
use bttracker.Tests.Cases.{announce_request, request_of}

announce_request-IsAnnounce : IsAnnounce announce_request
announce_request-IsAnnounce = record {
  connection_id = omega arith;
  action = omega arith;
  transaction_id = omega arith;
  ipv4_addr = omega arith;
  port = omega arith;
  info_hash = refl;
  peer_id = refl;
  downloaded = omega arith;
  left = omega arith;
  uploaded = omega arith;
  key = omega arith;
  num_want = omega arith;
  event = omega arith;
}

request_of-IsRequest : IsRequest (request_of 2)
request_of-IsRequest = record {
  connection_id = omega arith;
  action = omega arith;
  transaction_id = omega arith;
}

read_announce_fields_example :
    read_announce_request_data glibc little
      (to_packet (announce_fields announce_request) ++ zeros 3)
    ≡ announce_request
read_announce_fields_example =
    read_announce_fields glibc little tt announce_request (zeros 3) announce_request-IsAnnounce

log_announce_request-Printable_example :
    All IsPrintable (log_announce_request (read_announce_request_data glibc little (zeros 98)))
    × (length (log_announce_request (read_announce_request_data glibc little (zeros 98))) ≤ 114)
log_announce_request-Printable_example =
    log_announce_request-Printable glibc little (zeros 98) (zeros-IsByte 98) (omega arith)
