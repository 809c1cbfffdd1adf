-- ===== src/Tests/Loop.antt =====
-- Two clients whose datagrams arrive before a worker starts.
use bttracker.Common.{suc, ◌≡◌, refl, arith, some, [], ◌∷◌, map}
use bttracker.Memory.{Bytes, little}
use bttracker.ByteOrder.{glibc}
use bttracker.Net.{read_announce_request_data}
use bttracker.Server.Leftovers.{read_announce_request_data-clone}
use bttracker.Pool.{Job}
use bttracker.Server.{Datagram, Server, clone, receive, start, Reachable, initial, next, received}
use bttracker.Server.Senders.{receive_all, clones, start_after-receive_all}
use bttracker.Tests.Hosts.{zeros}

abbrev first_client : Datagram
first_client = record { payload = 1 ∷ 2 ∷ 3 ∷ []; sender = 10 ∷ 0 ∷ 0 ∷ 1 ∷ [] }

abbrev second_client : Datagram
second_client = record { payload = 9 ∷ []; sender = 10 ∷ 0 ∷ 0 ∷ 2 ∷ [] }

abbrev waiting : Server
waiting = receive (zeros 1496) (some first_client) (record { si_other = []; queue = [] })

waiting-Reachable : Reachable waiting
waiting-Reachable = next (initial []) (received (zeros 1496) (some first_client) _ refl)

abbrev first_job : Job
first_job = record {
  buff = (clone (zeros 1496) first_client).buff;
  buflen = (clone (zeros 1496) first_client).buflen;
  from_addr = first_client.sender;
}

waiting_starts :
    start waiting ≡ some (first_job, record { si_other = first_client.sender; queue = [] })
waiting_starts = start_after-receive_all [] (zeros 1496) first_client []

start_after-receive_all_example :
    start (
      receive_all
        ((zeros 1496, first_client) ∷ (zeros 1496, second_client) ∷ [])
        (record { si_other = []; queue = [] }))
    ≡ some (
      record {
        buff = (clone (zeros 1496) first_client).buff;
        buflen = (clone (zeros 1496) first_client).buflen;
        from_addr = second_client.sender;
      },
      record { si_other = second_client.sender; queue = clones ((zeros 1496, second_client) ∷ []) },
    )
start_after-receive_all_example =
    start_after-receive_all [] (zeros 1496) first_client ((zeros 1496, second_client) ∷ [])

-- Twenty bytes of an announce, in a buffer that holds ones.
abbrev short_announce : Datagram
short_announce = record { payload = zeros 20; sender = 10 ∷ 0 ∷ 0 ∷ 3 ∷ [] }

abbrev ones : Bytes
ones = map suc (zeros 1496)

read_announce_request_data-clone_example :
    let packet = read_announce_request_data glibc little (clone ones short_announce).buff in
    let old = read_announce_request_data glibc little ones in
    (packet.peer_id ≡ old.peer_id)
    × (packet.downloaded ≡ old.downloaded)
    × (packet.left ≡ old.left)
    × (packet.uploaded ≡ old.uploaded)
    × (packet.event ≡ old.event)
    × (packet.num_want ≡ old.num_want)
    × (packet.port ≡ old.port)
read_announce_request_data-clone_example =
    read_announce_request_data-clone glibc little ones short_announce (omega arith)
