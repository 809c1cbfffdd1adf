-- ===== src/Service/Counts.antt =====
-- How many responses the program sends.
use bttracker.Common.{
  ℕ, ◌+◌, ◌≤◌, arith, Bool, Option, none, some, List, [], ◌∷◌, length, length-append, get_elem?,
}
use bttracker.Memory.{Bytes}
use bttracker.Data.{Config, ResponseBuffer}
use bttracker.Platform.{Platform, World}
use bttracker.Exec.{Outcome, done, fault, exit}
use bttracker.Server.{Task, Server, receive, start, start_with, clone}
use bttracker.Pool.{Job, request_processor}
use bttracker.Service.{
  in_thread, Status, running, faulted, exited, killed, Service, send, finish, run_job,
  while_running, work, arrive, terminate, Step, arrived, worked, signalled, Steps, still, onward,
}

length-send :
    (from_addr : Bytes) (resp : Option ResponseBuffer) (sent : List (Bytes × ResponseBuffer))
    → length (send from_addr resp sent) ≤ length sent + 1
unfolding send
length-send from_addr none sent = omega arith
length-send from_addr (some resp) sent = omega (arith, length-append sent ((from_addr, resp) ∷ []))

module _ (p : Platform) (config : Config) where
  -- Responses that were sent and jobs that wait.
  abbrev pub load_of : Service p → ℕ
  load_of s = length s.sent + length s.server.queue

  -- How many datagrams a step receives.
  unfoldable pub received_by : {s s' : Service p} → Step config s s' → ℕ
  received_by (arrived buff none s h) = 0
  received_by (arrived buff (some d) s h) = 1
  received_by (worked worker s) = 0
  received_by (signalled signum s) = 0

  unfoldable pub received : {s s' : Service p} → Steps config s s' → ℕ
  unfolding received_by
  received (still s) = 0
  received (onward steps step) = received steps + received_by step

  finish_load :
      (worker : ℕ) (from_addr : Bytes) (server : Server)
      (o : Outcome (Bool × Option ResponseBuffer)) (w : World p) (s : Service p)
      → load_of (finish worker from_addr server o w s) ≤ length s.sent + 1 + length server.queue
  unfolding finish
  finish_load worker from_addr server (done (kept, resp)) w s =
      omega (arith, length-send from_addr resp s.sent)
  finish_load worker from_addr server (fault x) w s = omega arith
  finish_load worker from_addr server (exit c) w s = omega arith

  run_job_load :
      (worker : ℕ) (kept : Option Bool) (si_other : Bytes) (queue : List Task) (s : Service p)
      → length queue ≤ length s.server.queue
      → load_of (run_job config worker kept (start_with si_other queue) s)
        ≤ length s.sent + length s.server.queue
  unfolding run_job start_with
  run_job_load worker none si_other queue s h = omega arith
  run_job_load worker (some kept) si_other [] s h = omega arith
  run_job_load worker (some kept) si_other (t ∷ queue) s h =
      let job : Job = record { buff = t.buff; buflen = t.buflen; from_addr = si_other } in
      let (o, w) = request_processor p config kept job (in_thread worker s.world) in
      omega
        (arith, finish_load worker si_other (record { si_other = si_other; queue = queue }) o w s)

  while_running_load :
      (k : ℕ) (t : Status) (after s : Service p)
      → load_of after ≤ load_of s + k
      → load_of (while_running t after s) ≤ load_of s + k
  unfolding while_running
  while_running_load k running after s h = h
  while_running_load k (faulted x) after s h = omega arith
  while_running_load k (exited c) after s h = omega arith
  while_running_load k (killed signum) after s h = omega arith

  Step_load :
      {s s' : Service p} (step : Step config s s') → load_of s' ≤ load_of s + received_by step
  unfolding received_by arrive work terminate start receive
  Step_load (arrived buff none s h) = while_running_load 0 s.status _ s (omega arith)
  Step_load (arrived buff (some d) s h) =
      while_running_load 1 s.status _ s
        (omega (arith, length-append s.server.queue (clone buff d ∷ [])))
  Step_load (worked worker s) = while_running_load 0 s.status _ s (
      omega (
        arith,
        run_job_load worker (get_elem? s.connected worker) s.server.si_other s.server.queue s
            (omega arith),
      ))
  Step_load (signalled signum s) = while_running_load 0 s.status _ s (omega arith)

  -- From any state, however datagrams, workers and signals follow each other: what was sent and what
  -- waits is at most what was before and one for each datagram that arrived.
  pub received-Bounds :
      {s s' : Service p} (steps : Steps config s s') → load_of s' ≤ load_of s + received steps
  unfolding received
  received-Bounds (still s) = omega arith
  received-Bounds (onward steps step) = omega (arith, received-Bounds steps, Step_load step)
