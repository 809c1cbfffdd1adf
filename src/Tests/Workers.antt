-- ===== src/Tests/Workers.antt =====
-- A worker with a few jobs, the random numbers, and the loading of a configuration.
use mathlib.Core.Logic.{◌↔◌}
use bttracker.Common.{
  ℕ, ◌+◌, ◌^◌, ◌<◌, ◌≡◌, inr, refl, ap, arith, true, false, some, [], ◌++◌, length,
}
use bttracker.Memory.{Bytes, hton, little}
use bttracker.ByteOrder.{glibc, htonll, IsSupported}
use bttracker.ByteOrder.Macros.{htonll_iff}
use bttracker.Text.{str_eq}
use bttracker.Data.{IsRequest, Request, action_error}
use bttracker.Exec.{command, done, fault, null_pointer, out_of_bounds}
use bttracker.Net.{read_request_data}
use bttracker.Net.Fields.{to_packet}
use bttracker.Net.Requests.{read_request_fields}
use bttracker.Net.Responses.{connection_fields, error_fields}
use bttracker.Random.Identifiers.{identifier}
use bttracker.Redis.{redis_connect}
use bttracker.Redis.Effects.{set_connection}
use bttracker.Handshake.{valid_request}
use bttracker.Handshake.Accepts.{IsAccepted, valid_request_iff}
use bttracker.Connect.{handle_connection}
use bttracker.Connect.Layout.{connection_response, handle_connection-done}
use bttracker.Scrape.{handle_scrape}
use bttracker.Scrape.Layout.{handle_scrape_overflow}
use bttracker.Pool.{connect, unavailable_text, ensure_redis, request_processor}
use bttracker.Pool.Dispatch.{unavailable_answered, error_action_faults}
use bttracker.Tests.Hosts.{plain, offline, zeros}
use bttracker.Tests.Laws.{plain-HasMemory, offline-HasMemory}
use bttracker.Tests.Cases.{prefix, config, request_of, full_world, full_db, offline_world, job_of}

handle_connection-done_example :
    ((handle_connection plain (request_of 0) config 16 full_world).0
      ≡ done (
          some (record {
            length = 16;
            data_bytes = to_packet (
                connection_fields
                  (connection_response plain plain-HasMemory tt (request_of 0) full_world));
          })))
    × ((handle_connection plain (request_of 0) config 16 full_world).1.redis
        ≡ (plain.redis_command
            (set_connection plain config prefix refl (identifier plain 0))
            full_db).1)
handle_connection-done_example =
    handle_connection-done plain plain-HasMemory tt config prefix (request_of 0) 16 full_world refl
      refl refl (omega arith)

valid_request_iff_example :
    ((valid_request plain config (request_of 2) 36 full_world).0 ≡ done true)
    ↔ IsAccepted plain config prefix refl (request_of 2) 36 full_world
valid_request_iff_example = valid_request_iff plain config prefix refl (request_of 2) 36 full_world

server_missing : (ensure_redis offline config false offline_world).0 ≡ done false
unfolding ensure_redis connect redis_connect command
server_missing = refl

pub server_there : (ensure_redis plain config false full_world).0 ≡ done true
unfolding ensure_redis connect redis_connect command
server_there = refl

unavailable_answered_example :
    (junk : Bytes) × (length junk ≡ 56)
    × ((request_processor offline config false (job_of 1) offline_world).0
        ≡ done (
          false,
          some (record {
            length = 64 + length unavailable_text;
            data_bytes =
                to_packet (
                  error_fields
                    (record (read_request_data glibc little (job_of 1).buff) {
                      action = action_error;
                    })
                    unavailable_text)
                ++ junk;
          }),
        ))
unavailable_answered_example =
    unavailable_answered offline config false (job_of 1) offline_world offline-HasMemory
      server_missing

pub request_of-IsRequest : (action : ℕ) → action < 2 ^ 32 → IsRequest (request_of action)
request_of-IsRequest action h = record {
  connection_id = omega arith;
  action = h;
  transaction_id = omega arith;
}

-- The header of a job.
pub job_header :
    (action : ℕ)
    → action < 2 ^ 32
    → read_request_data glibc little (job_of action).buff ≡ request_of action
job_header action h =
    read_request_fields glibc little tt (request_of action) [] (zeros 82) tt
      (request_of-IsRequest action h)

error_action : (read_request_data glibc little (job_of 3).buff).action ≡ 3
error_action = ap (λ (r : Request). r.action) (job_header 3 (omega arith))

error_action_faults_example :
    (request_processor plain config false (job_of 3) full_world).0 ≡ fault null_pointer
error_action_faults_example =
    error_action_faults plain config false (job_of 3) full_world plain-HasMemory server_there
      error_action

unknown_action : 3 < (read_request_data glibc little (job_of 9).buff).action
unknown_action = rw (job_header 9 (omega arith)) (omega arith)

scrape_accepted : (valid_request plain config (request_of 2) 177 full_world).0 ≡ done true
unfolding str_eq
scrape_accepted =
    (valid_request_iff plain config prefix refl (request_of 2) 177 full_world).1
      (inr (inr (refl, omega arith, (_, refl, λ e. cc))))

handle_scrape_overflow_example :
    (handle_scrape plain (request_of 2) config (zeros 177) 177 full_world).0 ≡ fault out_of_bounds
handle_scrape_overflow_example =
    handle_scrape_overflow plain plain-HasMemory config (request_of 2) (zeros 177) 177 full_world
      scrape_accepted (omega arith) (omega arith)

htonll_iff_example :
    ((v : ℕ) → v < 2 ^ 64 → htonll glibc little v ≡ hton little 8 v) ↔ IsSupported glibc little
htonll_iff_example = htonll_iff glibc little
