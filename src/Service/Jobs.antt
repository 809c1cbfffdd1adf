-- ===== src/Service/Jobs.antt =====
-- The running program against its loop and its queue alone.
use bttracker.Common.{ℕ, ◌≡◌, refl, Bool, Option, none, some, get_elem?}
use bttracker.Memory.{Bytes}
use bttracker.Data.{Config, ResponseBuffer}
use bttracker.Platform.{Platform, World}
use bttracker.Exec.{Outcome, done, fault, exit}
use bttracker.Pool.{Job, request_processor}
use bttracker.Server.{Datagram, Task, Server, receive, start, start_with}
use bttracker.Server
use bttracker.Server.Jobs.{IsJob, reachable-IsJob}
use bttracker.Service.{
  in_thread, Status, running, faulted, exited, killed, Service, launch, finish, run_job,
  while_running, work, arrive, terminate, Step, arrived, worked, signalled, Reachable, launched,
  next,
}

module _ (p : Platform) (config : Config) where
  while_running-Reachable :
      (t : Status) (after s : Service p)
      → Server.Reachable after.server
      → Server.Reachable s.server
      → Server.Reachable (while_running t after s).server
  unfolding while_running
  while_running-Reachable running after s h k = h
  while_running-Reachable (faulted x) after s h k = k
  while_running-Reachable (exited c) after s h k = k
  while_running-Reachable (killed signum) after s h k = k

  finish-server :
      (worker : ℕ) (from_addr : Bytes) (server : Server)
      (o : Outcome (Bool × Option ResponseBuffer)) (w : World p) (s : Service p)
      → (finish worker from_addr server o w s).server ≡ server
  unfolding finish
  finish-server worker from_addr server (done (kept, resp)) w s = refl
  finish-server worker from_addr server (fault x) w s = refl
  finish-server worker from_addr server (exit c) w s = refl

  run_job-Reachable :
      (worker : ℕ) (kept : Option Bool) (job : Option (Job × Server)) (s : Service p)
      → start s.server ≡ job
      → Server.Reachable s.server
      → Server.Reachable (run_job config worker kept job s).server
  unfolding run_job
  run_job-Reachable worker (some kept) (some (job, server)) s e r =
      rw
        (finish-server worker job.from_addr server
          (request_processor p config kept job (in_thread worker s.world)).0
          (request_processor p config kept job (in_thread worker s.world)).1 s)
        (Server.next r (Server.started s.server server job e))
  run_job-Reachable worker (some kept) none s e r = r
  run_job-Reachable worker none none s e r = r
  run_job-Reachable worker none (some job) s e r = r

  Step-Reachable :
      {s s' : Service p} → Step config s s' → Server.Reachable s.server → Server.Reachable s'.server
  unfolding arrive work terminate
  Step-Reachable (arrived buff o s h) r =
      while_running-Reachable s.status _ s (Server.next r (Server.received buff o s.server h)) r
  Step-Reachable (worked worker s) r =
      while_running-Reachable s.status _ s
        (run_job-Reachable worker (get_elem? s.connected worker) (start s.server) s refl r) r
  Step-Reachable (signalled signum s) r = while_running-Reachable s.status _ s r r

  -- Every state that the running program can reach, with its workers, signals and faults, is for the
  -- loop and the queue a state that they reach by receiving datagrams and starting jobs alone.
  pub reachable-Reachable : {s : Service p} → Reachable config s → Server.Reachable s.server
  unfolding launch
  reachable-Reachable (launched si_other w) = Server.initial si_other
  reachable-Reachable (next r step) = Step-Reachable step (reachable-Reachable r)

  -- In every state that the running program can reach, a job that a worker would start has its full
  -- buffer of 1496 bytes, and a length that lies within it.
  pub reachable_job-IsJob :
      {s : Service p}
      → Reachable config s
      → (job : Job) (server : Server) → start s.server ≡ some (job, server)
      → IsJob job
  reachable_job-IsJob {s} r job server e =
      reachable-IsJob s.server server job (reachable-Reachable r) e
