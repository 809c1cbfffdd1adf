-- ===== src/Service.antt =====
-- The running program: the loop of src/bttracker.c feeds the pool, and each worker of the pool runs
-- `bt_request_processor` of src/pool.c on one job after the other, with the connection to Redis that
-- its thread keeps, and hands the response to `sendto`. A job runs as one step.
pub mod Outputs
pub mod Sends
pub mod Drains
pub mod Ends
pub mod Counts
pub mod Serves
pub mod Connects
pub mod Jobs
pub mod Limits
pub mod Echoes
use bttracker.Common.{
  ℕ, Bool, false, Option, none, some, List, [], ◌∷◌, ◌++◌, length, get_elem?, set, replicate, ◌≡◌,
}
use bttracker.Memory.{Bytes}
use bttracker.Data.{Config, ExitCode, ResponseBuffer, recv_buflen}
use bttracker.Platform.{Platform, World}
use bttracker.Exec.{Fault, Outcome, done, fault, exit}
use bttracker.Pool.{Job, request_processor}
use bttracker.Server.{Datagram, Task, Server, receive, start}

-- A fault or an `exit` in one thread ends the process, and so does a signal.
pub data Status : Type 0 where
  running : Status
  faulted : Fault → Status
  exited : ExitCode → Status
  killed : ℕ → Status

-- `world` has the connections of all threads; `connected` has, for each worker, whether its thread
-- keeps one; `sent` has the address and
-- the response of each call of `sendto`, in order. What becomes of a datagram that is sent is not
-- known to the program, which only logs a failure.
pub record Service (p : Platform) : Type 0 where
  pub server : Server
  pub world : World p
  pub connected : List Bool
  pub sent : List (Bytes × ResponseBuffer)
  pub status : Status

-- `bt_new_request_processor_pool`: an exclusive pool has all of its threads from the start, none of
-- them connected.
unfoldable pub launch : (p : Platform) → Config → Bytes → World p → Service p
launch p config si_other w = record {
  server = record { si_other = si_other; queue = [] };
  world = w;
  connected = replicate config.thread_max false;
  sent = [];
  status = running;
}

-- The `sendto` of a response, if there is one.
pub send :
    Bytes → Option ResponseBuffer → List (Bytes × ResponseBuffer) → List (Bytes × ResponseBuffer)
send from_addr none sent = sent
send from_addr (some resp) sent = sent ++ ((from_addr, resp) ∷ [])

module _ {p : Platform} where
  -- What a worker leaves behind, by how its job ended.
  finish :
      ℕ → Bytes → Server → Outcome (Bool × Option ResponseBuffer) → World p → Service p → Service p
  unfolding send
  finish worker from_addr server (done (kept, resp)) w s = record {
    server = server;
    world = w;
    connected = set s.connected worker kept;
    sent = send from_addr resp s.sent;
    status = running;
  }
  finish worker from_addr server (fault x) w s = record s {
    server = server;
    world = w;
    status = faulted x;
  }
  finish worker from_addr server (exit c) w s = record s {
    server = server;
    world = w;
    status = exited c;
  }

  -- What follows is done by this worker's thread, on the connection that it keeps.
  abbrev pub in_thread : ℕ → World p → World p
  in_thread worker w = record w { redis = p.redis_of_thread worker w.redis }

  pub run_job : Config → ℕ → Option Bool → Option (Job × Server) → Service p → Service p
  unfolding finish
  run_job config worker (some kept) (some (job, server)) s =
      let (o, w) = request_processor p config kept job (in_thread worker s.world) in
      finish worker job.from_addr server o w s
  run_job config worker (some kept) none s = s
  run_job config worker none job s = s

  -- Nothing happens any more when the process has ended.
  unfoldable pub while_running : Status → Service p → Service p → Service p
  while_running running after s = after
  while_running (faulted x) after s = s
  while_running (exited c) after s = s
  while_running (killed signum) after s = s

  -- Worker number `worker` takes the first job, if there is one.
  pub work : Config → ℕ → Service p → Service p
  unfolding while_running run_job
  work config worker s =
      while_running s.status
        (run_job config worker (get_elem? s.connected worker) (start s.server) s) s

  -- One round of the loop.
  unfoldable pub arrive : Bytes → Option Datagram → Service p → Service p
  unfolding while_running
  arrive buff o s = while_running s.status (record s { server = receive buff o s.server }) s

  -- `on_sigterm`: the pool is freed at once, which by GLib's documentation means that no job that
  -- waits is run, and the signal that is raised again, with its default action, ends the process.
  pub terminate : ℕ → Service p → Service p
  unfolding while_running
  terminate signum s = while_running s.status (record s { status = killed signum }) s

  -- Several workers, one after the other.
  pub work_all : Config → List ℕ → Service p → Service p
  work_all config [] s = s
  work_all config (worker ∷ workers) s = work_all config workers (work config worker s)

  -- A running service with these jobs.
  abbrev pub waiting :
      Bytes → List Task → World p → List Bool → List (Bytes × ResponseBuffer) → Service p
  waiting si_other queue w connected sent = record {
    server = record { si_other = si_other; queue = queue };
    world = w;
    connected = connected;
    sent = sent;
    status = running;
  }

-- Datagrams, workers and signals in any order.
pub data Step {p : Platform} (config : Config) : Service p → Service p → Type 0 where
  arrived :
      (buff : Bytes) (o : Option Datagram) (s : Service p)
      → length buff ≡ recv_buflen
      → Step config s (arrive buff o s)
  worked : (worker : ℕ) (s : Service p) → Step config s (work config worker s)
  signalled : (signum : ℕ) (s : Service p) → Step config s (terminate signum s)

pub data Reachable {p : Platform} (config : Config) : Service p → Type 0 where
  launched : (si_other : Bytes) (w : World p) → Reachable config (launch p config si_other w)
  next : {s s' : Service p} → Reachable config s → Step config s s' → Reachable config s'

-- What happens after a state.
pub data Steps {p : Platform} (config : Config) : Service p → Service p → Type 0 where
  still : (s : Service p) → Steps config s s
  onward : {s s' s'' : Service p} → Steps config s s' → Step config s' s'' → Steps config s s''
