-- ===== src/Service/Connects.antt =====
-- A connect from its datagram to the response that is sent.
use mathlib.Core.Path.{subst}
use bttracker.Common.{
  ℕ, sym, ◌<◌, ◌≡◌, refl, ap, ◌∙◌, arith, Bool, true, some, List, [], ◌∷◌, ◌++◌, length, set,
  get_elem?, get_elem?_in_range, drop,
}
use bttracker.Memory.{Bytes}
use bttracker.Text.{codes}
use bttracker.ByteOrder.{IsSupported}
use bttracker.Data.{Config, Request, IsRequest, ResponseBuffer, action_connect, protocol_id}
use bttracker.Net.{read_request_data}
use bttracker.Net.Fields.{to_packet, length-to_packet}
use bttracker.Net.Requests.{request_fields, read_request_fields}
use bttracker.Net.Responses.{connection_fields}
use bttracker.Platform.{Platform, World, Reply, ReplyType}
use bttracker.Platform.Laws.{HasMemory}
use bttracker.Platform.Stores.{IsStore, IsReadable}
use bttracker.Exec.{done}
use bttracker.Random.Identifiers.{identifier}
use bttracker.Redis.Effects.{reply_to, get_connection}
use bttracker.Handshake.Sessions.{handle_connection-IsGot}
use bttracker.Pool.{Job, ensure_redis, request_processor}
use bttracker.Pool.Dispatch.{connect_answered}
use bttracker.Server.{Datagram, Server, clone, receive, start, start_with}
use bttracker.Server.Leftovers.{clone_lem}
use bttracker.Net.Scrapes.{request_fields-IsSized}
use bttracker.Service.{in_thread, Service, work, arrive, waiting, while_running, run_job, send}
use bttracker.Service.Serves.{run_job_ends}

module _ (p : Platform) (memory : HasMemory p) (ok : IsSupported p.target p.endian)
    (config : Config) (prefix : Bytes) (has_prefix : config.redis_key_prefix ≡ some prefix) where
  -- The datagram of a request, and the job that the loop makes of it.
  abbrev pub datagram_of : Request → Bytes → Datagram
  datagram_of req sender = record {
    payload = to_packet (request_fields req ++ []);
    sender = sender;
  }

  abbrev pub job_for : Request → Bytes → Bytes → Job
  job_for req sender buff = record {
    buff = (clone buff (datagram_of req sender)).buff;
    buflen = (clone buff (datagram_of req sender)).buflen;
    from_addr = sender;
  }

  packet_size : (req : Request) → length (to_packet (request_fields req ++ [])) ≡ 16
  packet_size req = length-to_packet (request_fields req ++ []) (request_fields-IsSized req)

  clone_of :
      (req : Request) (sender buff : Bytes)
      → clone buff (datagram_of req sender)
        ≡ record { buff = to_packet (request_fields req ++ []) ++ drop 16 buff; buflen = 16 }
  clone_of req sender buff =
      clone_lem buff (datagram_of req sender) (omega (arith, packet_size req))
      ∙ rw (packet_size req)

  job_reads :
      (req : Request) (sender buff : Bytes)
      → IsRequest req
      → (read_request_data p.target p.endian (job_for req sender buff).buff ≡ req)
        × ((job_for req sender buff).buflen ≡ 16)
  job_reads req sender buff h =
      rw (clone_of req sender buff)
        (read_request_fields p.target p.endian ok req [] (drop 16 buff) tt h, refl)

  module _ (store : IsStore p) (readable : IsReadable p store) where
    -- The response to a connect under an identifier.
    abbrev pub answer_of : Request → ℕ → ResponseBuffer
    answer_of req id = record {
      length = 16;
      data_bytes = to_packet (
          connection_fields (record {
            action = req.action;
            transaction_id = req.transaction_id;
            connection_id = id;
          }));
    }

    -- The text of a connection is found under an identifier.
    abbrev pub IsKept : ℕ → World p → Type 0
    IsKept id w =
        (r : Reply) × (reply_to p (get_connection p config prefix has_prefix id) w ≡ some r)
        × (r.type ≡ ReplyType.string)
        × (r.str ≡ some (codes "1"))

    -- What the worker makes of the job of a connect.
    processed :
        (req : Request) (job : Job) (kept : Bool) (w : World p)
        → req.action ≡ action_connect
        → req.connection_id ≡ protocol_id
        → (read_request_data p.target p.endian job.buff ≡ req) × (job.buflen ≡ 16)
        → (ensure_redis p config kept w).0 ≡ done true
        → (id : ℕ) × ((request_processor p config kept job w).0
            ≡ done (true, some (answer_of req id)))
          × IsKept id (request_processor p config kept job w).1
    processed req job kept w a c (e, size) ready =
        let w1 = (ensure_redis p config kept w).1 in
        let header = read_request_data p.target p.endian job.buff in
        let a' : header.action ≡ action_connect = ap (λ (r : Request). r.action) e ∙ a in
        let c' : header.connection_id ≡ protocol_id = ap (λ (r : Request). r.connection_id) e ∙ c in
        let (answered, after) =
          connect_answered p config kept job w memory ok prefix has_prefix ready a' c'
            (omega arith) in
        let known =
          handle_connection-IsGot p store readable config prefix has_prefix memory ok header
            job.buflen w1 a' c' (omega arith) in
        (
          identifier p w1.rng,
          answered ∙ ap (λ (r : Request). done (true, some (answer_of r (identifier p w1.rng)))) e,
          subst (IsKept (identifier p w1.rng)) (sym after) known,
        )

    -- With memory, a supported byte order, a key prefix, and a store that behaves as documented and
    -- answers: where the datagram of a connect with the protocol's number arrives at a running
    -- service with no job, and a worker that has or gets a connection to Redis goes to work, exactly
    -- one response is sent, to the sender, with the action and the transaction of the request and an
    -- identifier, a lookup of which in the world after it finds the text of a connection.
    pub arrive-work :
        (req : Request) (sender buff si_other : Bytes) (w : World p) (connected : List Bool)
        (sent : List (Bytes × ResponseBuffer)) (worker : ℕ)
        → IsRequest req
        → req.action ≡ action_connect
        → req.connection_id ≡ protocol_id
        → worker < length connected
        → ((kept : Bool)
            → get_elem? connected worker ≡ some kept
            → (ensure_redis p config kept (in_thread worker w)).0 ≡ done true)
        → (id : ℕ) × (w' : World p) × (work config worker
              (arrive buff (some (datagram_of req sender)) (waiting si_other [] w connected sent))
            ≡ waiting sender [] w'
                (set connected worker true)
                (sent ++ ((sender, answer_of req id) ∷ [])))
          × IsKept id w'
    unfolding work arrive while_running receive start start_with send
    arrive-work req sender buff si_other w connected sent worker h a c there ready =
        let (kept, at) = get_elem?_in_range connected worker there in
        let job = job_for req sender buff in
        let server : Server = record { si_other = sender; queue = [] } in
        let s : Service p =
          waiting sender (clone buff (datagram_of req sender) ∷ []) w connected sent in
        let (id, ends, known) =
          processed req job kept (in_thread worker w) a c (job_reads req sender buff h)
            (ready kept at) in
        (
          id,
          (request_processor p config kept job (in_thread worker w)).1,
          ap (λ o. run_job config worker o (some (job, server)) s) at
              ∙ run_job_ends p memory ok config prefix has_prefix worker kept true job server
                  (some (answer_of req id)) s ends,
          known,
        )
