-- ===== src/Service/Echoes.antt =====
-- The responses that the program sends, and the requests that it has received.
use bttracker.Common.{
  ℕ, ◌≡◌, refl, Bool, Option, none, some, List, [], ◌∷◌, ◌⊎◌, inl, inr, get_elem?, All, All-map,
  All-append,
}
use bttracker.Memory.{Bytes}
use bttracker.Data.{Config, ResponseBuffer}
use bttracker.Net.{read_request_data}
use bttracker.Platform.{Platform, World}
use bttracker.Exec.{Outcome, done, fault, exit}
use bttracker.Exec.Posts.{Post}
use bttracker.Exec.Responses.{IfAny}
use bttracker.Exec.Echoes.{IsReplyTo}
use bttracker.Pool.{Job, request_processor}
use bttracker.Pool.Echoes.{request_processor-Echoes}
use bttracker.Server.{Task, Server, clone, receive, start, start_with}
use bttracker.Service.{
  in_thread, Status, running, faulted, exited, killed, Service, launch, send, finish, run_job,
  while_running, work, arrive, terminate, Step, arrived, worked, signalled, Steps, still, onward,
}

module _ (p : Platform) (config : Config) where
  -- The loop has made this buffer of a datagram, in a step or in a run.
  abbrev pub Hears : Bytes → {s s' : Service p} → Step config s s' → Type 0
  Hears b (arrived buff none s size) = ⊥
  Hears b (arrived buff (some d) s size) = (clone buff d).buff ≡ b
  Hears b (worked worker s) = ⊥
  Hears b (signalled signum s) = ⊥

  abbrev pub Heard : Bytes → {s s' : Service p} → Steps config s s' → Type 0
  Heard b (still s) = ⊥
  Heard b (onward before step) = Heard b before ⊎ Hears b step

  -- A response to the request that such a buffer begins with.
  abbrev pub IsEcho : (Bytes → Type 0) → Bytes × ResponseBuffer → Type 0
  IsEcho T r = (b : Bytes) × T b × IsReplyTo (read_request_data p.target p.endian b) r.1

  -- The jobs that wait have such buffers, and the responses that were sent reply to them.
  AreEchoes : (Bytes → Type 0) → Service p → Type 0
  AreEchoes T s = All (λ (t : Task). T t.buff) s.server.queue × All (IsEcho T) s.sent

  AreEchoes-map :
      (T U : Bytes → Type 0) (s : Service p)
      → ((b : Bytes) → T b → U b)
      → AreEchoes T s
      → AreEchoes U s
  unfolding AreEchoes
  AreEchoes-map T U s f (queue, sent) = (
    All-map (λ t h. f t.buff h) s.server.queue queue,
    All-map (λ r (b, h, reply). (b, f b h, reply)) s.sent sent,
  )

  module _ (T : Bytes → Type 0) where
    send-IsEcho :
        (job : Job) (resp : Option ResponseBuffer) (sent : List (Bytes × ResponseBuffer))
        → T job.buff
        → IfAny (IsReplyTo (read_request_data p.target p.endian job.buff)) resp
        → All (IsEcho T) sent
        → All (IsEcho T) (send job.from_addr resp sent)
    unfolding send
    send-IsEcho job none sent h reply k = k
    send-IsEcho job (some resp) sent h reply k =
        All-append (IsEcho T) sent _ k ((job.buff, h, reply), tt)

    finish-AreEchoes :
        (worker : ℕ) (job : Job) (server : Server) (o : Outcome (Bool × Option ResponseBuffer))
        (w : World p) (s : Service p)
        → T job.buff
        → All (λ (t : Task). T t.buff) server.queue
        → Post (λ r. IfAny (IsReplyTo (read_request_data p.target p.endian job.buff)) r.1) o
        → All (IsEcho T) s.sent
        → AreEchoes T (finish worker job.from_addr server o w s)
    unfolding finish AreEchoes
    finish-AreEchoes worker job server (done (kept, resp)) w s h queue reply k =
        (queue, send-IsEcho job resp s.sent h reply k)
    finish-AreEchoes worker job server (fault x) w s h queue reply k = (queue, k)
    finish-AreEchoes worker job server (exit c) w s h queue reply k = (queue, k)

    run_job-AreEchoes :
        (worker : ℕ) (kept : Option Bool) (queue : List Task) (s : Service p)
        → All (λ (t : Task). T t.buff) queue
        → AreEchoes T s
        → AreEchoes T (run_job config worker kept (start_with s.server.si_other queue) s)
    unfolding run_job start_with AreEchoes
    run_job-AreEchoes worker none [] s q k = k
    run_job-AreEchoes worker none (t ∷ queue) s q k = k
    run_job-AreEchoes worker (some kept) [] s q k = k
    run_job-AreEchoes worker (some kept) (t ∷ queue) s q k =
        let job : Job = record {
          buff = t.buff;
          buflen = t.buflen;
          from_addr = s.server.si_other;
        } in
        finish-AreEchoes worker job _
          (request_processor p config kept job (in_thread worker s.world)).0
          (request_processor p config kept job (in_thread worker s.world)).1 s q.0 q.1
          ((request_processor-Echoes p config kept job).at (in_thread worker s.world)) k.1

    while_running-AreEchoes :
        (t : Status) (after s : Service p)
        → AreEchoes T after
        → AreEchoes T s
        → AreEchoes T (while_running t after s)
    unfolding while_running
    while_running-AreEchoes running after s h k = h
    while_running-AreEchoes (faulted x) after s h k = k
    while_running-AreEchoes (exited c) after s h k = k
    while_running-AreEchoes (killed signum) after s h k = k

    Step-AreEchoes :
        {s s' : Service p} (step : Step config s s')
        → ((b : Bytes) → Hears b step → T b)
        → AreEchoes T s
        → AreEchoes T s'
    unfolding arrive work terminate receive start AreEchoes
    Step-AreEchoes (arrived buff none s size) heard k = while_running-AreEchoes s.status _ s k k
    Step-AreEchoes (arrived buff (some d) s size) heard k =
        while_running-AreEchoes s.status _ s
          (
            All-append (λ (t : Task). T t.buff) s.server.queue _ k.0
                (heard (clone buff d).buff refl, tt),
            k.1,
          )
          k
    Step-AreEchoes (worked worker s) heard k =
        while_running-AreEchoes s.status _ s
          (run_job-AreEchoes worker (get_elem? s.connected worker) s.server.queue s k.0 k) k
    Step-AreEchoes (signalled signum s) heard k = while_running-AreEchoes s.status _ s k k

  onward-AreEchoes :
      {s s' s'' : Service p} (before : Steps config s s') (step : Step config s' s'')
      → AreEchoes (λ b. Heard b before) s'
      → AreEchoes (λ b. Heard b (onward before step)) s''
  onward-AreEchoes {s} {s'} before step k =
      Step-AreEchoes (λ b. Heard b (onward before step)) step (λ b h. inr h)
        (AreEchoes-map (λ b. Heard b before) (λ b. Heard b (onward before step)) s' (λ b h. inl h)
          k)

  Steps-AreEchoes :
      {s s' : Service p} (steps : Steps config s s')
      → AreEchoes (λ b. ⊥) s
      → AreEchoes (λ b. Heard b steps) s'
  Steps-AreEchoes (still s) k = k
  Steps-AreEchoes (onward before step) k = onward-AreEchoes before step (Steps-AreEchoes before k)

  -- In every run of the program from its launch, whatever Redis answers: each response that was
  -- sent begins with the transaction of a request that was received before, and with the action of
  -- that request or of an error.
  pub steps-AreEchoes :
      (si_other : Bytes) (w : World p) (s : Service p)
      (steps : Steps config (launch p config si_other w) s)
      → All (IsEcho (λ b. Heard b steps)) s.sent
  unfolding launch AreEchoes
  steps-AreEchoes si_other w s steps = (Steps-AreEchoes steps (tt, tt)).1
