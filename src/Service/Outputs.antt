-- ===== src/Service/Outputs.antt =====
-- From what holds of the response of every job to what is sent in every reachable state.
use bttracker.Common.{ℕ, Bool, Option, none, some, List, [], ◌∷◌, get_elem?, All}
use bttracker.Memory.{Bytes}
use bttracker.Data.{Config, ResponseBuffer}
use bttracker.Platform.{Platform, World}
use bttracker.Exec.{Outcome, done, fault, exit}
use bttracker.Exec.Posts.{Post, Ensures}
use bttracker.Exec.Responses.{IfAny}
use bttracker.Pool.{Job, request_processor}
use bttracker.Server.{Server, start}
use bttracker.Service.{
  in_thread, Status, running, faulted, exited, killed, Service, launch, send, finish, run_job,
  while_running, work, arrive, terminate, Step, arrived, worked, signalled, Reachable, launched,
  next,
}

abbrev pub AreSent : (ResponseBuffer → Type 0) → List (Bytes × ResponseBuffer) → Type 0
AreSent P sent = All (λ r. P r.1) sent

send-AreSent :
    (P : ResponseBuffer → Type 0) (from_addr : Bytes) (resp : Option ResponseBuffer)
    (sent : List (Bytes × ResponseBuffer))
    → IfAny P resp
    → AreSent P sent
    → AreSent P (send from_addr resp sent)
unfolding send
send-AreSent P from_addr none sent h k = k
send-AreSent P from_addr (some resp) [] h k = (h, tt)
send-AreSent P from_addr (some resp) (r ∷ sent) h k =
    (k.0, send-AreSent P from_addr (some resp) sent h k.1)

module _ (p : Platform) (config : Config) (P : ResponseBuffer → Type 0)
    (each : (kept : Bool) (job : Job)
      → Ensures (λ r. IfAny P r.1) (request_processor p config kept job)) where
  finish-AreSent :
      (worker : ℕ) (from_addr : Bytes) (server : Server)
      (o : Outcome (Bool × Option ResponseBuffer)) (w : World p) (s : Service p)
      → Post (λ r. IfAny P r.1) o
      → AreSent P s.sent
      → AreSent P (finish worker from_addr server o w s).sent
  unfolding finish
  finish-AreSent worker from_addr server (done (kept, resp)) w s h k =
      send-AreSent P from_addr resp s.sent h k
  finish-AreSent worker from_addr server (fault x) w s h k = k
  finish-AreSent worker from_addr server (exit c) w s h k = k

  run_job-AreSent :
      (worker : ℕ) (kept : Option Bool) (job : Option (Job × Server)) (s : Service p)
      → AreSent P s.sent
      → AreSent P (run_job config worker kept job s).sent
  unfolding run_job
  run_job-AreSent worker (some kept) (some (job, server)) s k =
      finish-AreSent worker job.from_addr server
        (request_processor p config kept job (in_thread worker s.world)).0
        (request_processor p config kept job (in_thread worker s.world)).1 s
        ((each kept job).at (in_thread worker s.world)) k
  run_job-AreSent worker (some kept) none s k = k
  run_job-AreSent worker none none s k = k
  run_job-AreSent worker none (some job) s k = k

  while_running-AreSent :
      (t : Status) (after s : Service p)
      → AreSent P after.sent
      → AreSent P s.sent
      → AreSent P (while_running t after s).sent
  unfolding while_running
  while_running-AreSent running after s h k = h
  while_running-AreSent (faulted x) after s h k = k
  while_running-AreSent (exited c) after s h k = k
  while_running-AreSent (killed signum) after s h k = k

  Step-AreSent : {s s' : Service p} → Step config s s' → AreSent P s.sent → AreSent P s'.sent
  unfolding arrive work terminate
  Step-AreSent (arrived buff o s h) k = while_running-AreSent s.status _ s k k
  Step-AreSent (worked worker s) k =
      while_running-AreSent s.status _ s
        (run_job-AreSent worker (get_elem? s.connected worker) (start s.server) s k) k
  Step-AreSent (signalled signum s) k = while_running-AreSent s.status _ s k k

  pub reachable-AreSent : {s : Service p} → Reachable config s → AreSent P s.sent
  unfolding launch
  reachable-AreSent (launched si_other w) = tt
  reachable-AreSent (next r step) = Step-AreSent step (reachable-AreSent r)
