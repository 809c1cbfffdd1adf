-- ===== src/Service/Serves.antt =====
-- A queue of jobs that can be served is served to its end.
use bttracker.Common.{
  ℕ, ◌<◌, ◌≡◌, refl, ap, ◌∙◌, arith, Bool, Option, some, List, [], ◌∷◌, length, set, length-set,
  get_elem?_in_range, All,
}
use bttracker.Memory.{Bytes}
use bttracker.ByteOrder.{IsSupported}
use bttracker.Data.{Config, ResponseBuffer}
use bttracker.Net.{read_request_data}
use bttracker.Platform.{Platform, World}
use bttracker.Platform.Laws.{HasMemory, HasReplies}
use bttracker.Exec.{done}
use bttracker.Pool.{Job, request_processor}
use bttracker.Pool.Returns.{IsServed, request_processor-Returns}
use bttracker.Server.{Task, Server, start, start_with}
use bttracker.Service.{
  in_thread, running, Service, send, finish, run_job, while_running, work, work_all, waiting,
}

module _ (p : Platform) (memory : HasMemory p) (ok : IsSupported p.target p.endian)
    (config : Config) (prefix : Bytes) (has_prefix : config.redis_key_prefix ≡ some prefix) where
  abbrev pub AreServed : List Task → Type 0
  AreServed = All (λ t. IsServed (read_request_data p.target p.endian t.buff).action t.buflen)

  pub run_job_ends :
      (worker : ℕ) (kept kept' : Bool) (job : Job) (server : Server) (resp : Option ResponseBuffer)
      (s : Service p)
      → (request_processor p config kept job (in_thread worker s.world)).0 ≡ done (kept', resp)
      → run_job config worker (some kept) (some (job, server)) s ≡ record {
        server = server;
        world = (request_processor p config kept job (in_thread worker s.world)).1;
        connected = set s.connected worker kept';
        sent = send job.from_addr resp s.sent;
        status = running;
      }
  unfolding run_job finish
  run_job_ends worker kept kept' job server resp s e = rw e

  module _ (replies : HasReplies p) where
    served_once :
        (si_other : Bytes) (t : Task) (queue : List Task) (w : World p) (connected : List Bool)
        (sent : List (Bytes × ResponseBuffer)) (worker : ℕ)
        → worker < length connected
        → IsServed (read_request_data p.target p.endian t.buff).action t.buflen
        → (kept' : Bool) × (resp : Option ResponseBuffer) × (w' : World p) × (work config worker
              (waiting si_other (t ∷ queue) w connected sent)
            ≡ waiting si_other queue w' (set connected worker kept') (send si_other resp sent))
    unfolding work while_running start start_with
    served_once si_other t queue w connected sent worker h served =
        let (kept, there) = get_elem?_in_range connected worker h in
        let job : Job = record { buff = t.buff; buflen = t.buflen; from_addr = si_other } in
        let ((kept', resp), ends, _) =
          (request_processor-Returns p memory replies ok config prefix has_prefix kept job
              served).at
            (in_thread worker w) in
        (
          kept',
          resp,
          (request_processor p config kept job (in_thread worker w)).1,
          ap
                (λ o.
                  run_job config worker o
                    (some (job, record { si_other = si_other; queue = queue }))
                    (waiting si_other (t ∷ queue) w connected sent))
                there
              ∙ run_job_ends worker kept kept' job (record { si_other = si_other; queue = queue })
                  resp (waiting si_other (t ∷ queue) w connected sent) ends,
        )

    -- With memory, a supported byte order and a key prefix, whatever Redis answers, also where it
    -- cannot be connected to, as long as no `redisGetReply` fails: where each job that waits is a
    -- connect, a scrape of 16 to 176 bytes or a packet with an action above 3, and as many workers
    -- as jobs go to work in any order, no job is left and the process still runs.
    pub work_all-serves :
        (si_other : Bytes) (queue : List Task) (w : World p) (connected : List Bool)
        (sent : List (Bytes × ResponseBuffer)) (workers : List ℕ)
        → length workers ≡ length queue
        → All (λ worker. worker < length connected) workers
        → AreServed queue
        → (w' : World p) × (connected' : List Bool) × (sent' : List (Bytes × ResponseBuffer))
          × (work_all config workers (waiting si_other queue w connected sent)
              ≡ waiting si_other [] w' connected' sent')
    unfolding work_all
    work_all-serves si_other [] w connected sent [] e h k = (w, connected, sent, refl)
    work_all-serves si_other [] w connected sent (worker ∷ workers) e h k = absurd (omega arith)
    work_all-serves si_other (t ∷ queue) w connected sent [] e h k = absurd (omega arith)
    work_all-serves si_other (t ∷ queue) w connected sent (worker ∷ workers) e h k =
        let (kept, resp, w1, step) = served_once si_other t queue w connected sent worker h.0 k.0 in
        let (w2, connected2, sent2, ends) =
          work_all-serves si_other queue w1 (set connected worker kept) (send si_other resp sent)
            workers (omega arith) (rw (length-set connected worker kept) h.1) k.1 in
        (w2, connected2, sent2, ap (work_all config workers) step ∙ ends)
