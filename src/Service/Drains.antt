-- ===== src/Service/Drains.antt =====
-- What becomes of the jobs that wait when Redis is out of reach: each is answered.
use bttracker.Common.{
  ℕ, ◌+◌, ◌<◌, ◌≡◌, refl, ap, ◌∙◌, arith, Bool, false, some, List, [], ◌∷◌, ◌++◌, append_assoc,
  append-nil, length, set, length-set, get_elem?_in_range, All,
}
use bttracker.Memory.{Bytes}
use bttracker.Data.{Config, ResponseBuffer, action_error}
use bttracker.Net.{read_request_data}
use bttracker.Net.Fields.{to_packet}
use bttracker.Net.Responses.{error_fields}
use bttracker.Platform.{Platform, World}
use bttracker.Platform.Laws.{HasMemory}
use bttracker.Exec.{done}
use bttracker.Pool.{Job, unavailable_text, request_processor}
use bttracker.Pool.Dispatch.{unavailable_answered}
use bttracker.Redis.Outages.{IsDown}
use bttracker.Pool.Outages.{ensure_redis_down}
use bttracker.Server.{Task, Server, start, start_with}
use bttracker.Service.{
  in_thread, running, Service, send, finish, run_job, while_running, work, work_all, waiting,
}

module _ (p : Platform) (memory : HasMemory p) (down : IsDown p) (config : Config) where
  -- The packet that tells the client of a job that the tracker is unavailable.
  abbrev pub IsApology : Task → ResponseBuffer → Type 0
  IsApology task resp =
      (junk : Bytes) × (length junk ≡ 56)
      × (resp ≡ record {
        length = 64 + length unavailable_text;
        data_bytes =
            to_packet (
              error_fields
                (record (read_request_data p.target p.endian task.buff) { action = action_error })
                unavailable_text)
            ++ junk;
      })

  -- One for each job, in order, to one address.
  abbrev pub AreApologies : Bytes → List Task → List (Bytes × ResponseBuffer) → Type 0
  AreApologies si_other [] [] = Unit
  AreApologies si_other [] (r ∷ rs) = ⊥
  AreApologies si_other (t ∷ ts) [] = ⊥
  AreApologies si_other (t ∷ ts) (r ∷ rs) =
      (r.0 ≡ si_other) × IsApology t r.1 × AreApologies si_other ts rs

  run_job_answered :
      (worker : ℕ) (kept : Bool) (job : Job) (server : Server) (resp : ResponseBuffer)
      (s : Service p)
      → (request_processor p config kept job (in_thread worker s.world)).0 ≡ done (false, some resp)
      → run_job config worker (some kept) (some (job, server)) s ≡ record {
        server = server;
        world = (request_processor p config kept job (in_thread worker s.world)).1;
        connected = set s.connected worker false;
        sent = s.sent ++ ((job.from_addr, resp) ∷ []);
        status = running;
      }
  unfolding run_job finish send
  run_job_answered worker kept job server resp s e = rw e

  work_once :
      (si_other : Bytes) (t : Task) (queue : List Task) (w : World p) (connected : List Bool)
      (sent : List (Bytes × ResponseBuffer)) (worker : ℕ)
      → worker < length connected
      → (resp : ResponseBuffer) × (w' : World p) × IsApology t resp
        × (work config worker (waiting si_other (t ∷ queue) w connected sent)
            ≡ waiting si_other queue w'
                (set connected worker false)
                (sent ++ ((si_other, resp) ∷ [])))
  unfolding work while_running start start_with
  work_once si_other t queue w connected sent worker h =
      let (kept, there) = get_elem?_in_range connected worker h in
      let job : Job = record { buff = t.buff; buflen = t.buflen; from_addr = si_other } in
      let (junk, size, answered) =
        unavailable_answered p config kept job (in_thread worker w) memory
          (ensure_redis_down p down config kept (in_thread worker w)) in
      (
        _,
        (request_processor p config kept job (in_thread worker w)).1,
        (junk, size, refl),
        ap
              (λ o.
                run_job config worker o (some (job, record { si_other = si_other; queue = queue }))
                  (waiting si_other (t ∷ queue) w connected sent))
              there
            ∙ run_job_answered worker kept job (record { si_other = si_other; queue = queue }) _
                (waiting si_other (t ∷ queue) w connected sent) answered,
      )

  -- With memory and a server out of reach: where as many workers as jobs wait go to work, in any
  -- order, no job is left, the process still runs, and for each job, in the order of the jobs, one
  -- error packet with its transaction was sent, to the address that the loop holds.
  pub work_all-drains :
      (si_other : Bytes) (queue : List Task) (w : World p) (connected : List Bool)
      (sent : List (Bytes × ResponseBuffer)) (workers : List ℕ)
      → length workers ≡ length queue
      → All (λ worker. worker < length connected) workers
      → (apologies : List (Bytes × ResponseBuffer)) × (w' : World p) × (connected' : List Bool)
        × AreApologies si_other queue apologies
        × (work_all config workers (waiting si_other queue w connected sent)
            ≡ waiting si_other [] w' connected' (sent ++ apologies))
  unfolding work_all
  work_all-drains si_other [] w connected sent [] e h =
      ([], w, connected, tt, ap (waiting si_other [] w connected) (rw append-nil))
  work_all-drains si_other [] w connected sent (worker ∷ workers) e h = absurd (omega arith)
  work_all-drains si_other (t ∷ queue) w connected sent [] e h = absurd (omega arith)
  work_all-drains si_other (t ∷ queue) w connected sent (worker ∷ workers) e h =
      let (resp, w1, apology, step) = work_once si_other t queue w connected sent worker h.0 in
      let (apologies, w2, connected2, rest, ends) =
        work_all-drains si_other queue w1 (set connected worker false)
          (sent ++ ((si_other, resp) ∷ [])) workers (omega arith)
          (rw (length-set connected worker false) h.1) in
      (
        (si_other, resp) ∷ apologies,
        w2,
        connected2,
        (refl, apology, rest),
        ap (work_all config workers) step
            ∙ ends
            ∙ ap (waiting si_other [] w2 connected2) (rw append_assoc),
      )
