-- ===== src/Tests/Services.antt =====
-- The running program: datagrams that arrive, workers that go to work, and signals.
use bttracker.Common.{
  ℕ, ◌+◌, ◌≤◌, ◌<◌, ◌^◌, ◌≡◌, refl, ap, arith, Bool, true, false, get_elem?, set, some, List, [],
  ◌∷◌, replicate, inl, inr,
}
use bttracker.Memory.{Bytes, little}
use bttracker.ByteOrder.{glibc}
use bttracker.Data.{Request, ResponseBuffer}
use bttracker.Platform.{World}
use bttracker.Exec.{done}
use bttracker.Exec.Returns.{Returns}
use bttracker.Net.{read_request_data}
use bttracker.Tests.Workers.{job_header, request_of-IsRequest, server_there}
use bttracker.Service.Connects.{datagram_of, answer_of, IsKept, arrive-work}
use mathlib.Core.Path.{subst}
use mathlib.Core.Option.{some-injective}
use bttracker.Net.Fields.{to_packet}
use bttracker.Net.Requests.{request_fields}
use bttracker.Pool.{ensure_redis, Job, request_processor}
use bttracker.Pool.Returns.{request_processor-Returns}
use bttracker.Server.{Datagram, Task, clone, receive, start, start_with}
use bttracker.Server.Jobs.{IsJob}
use bttracker.Service.Jobs.{reachable_job-IsJob}
use bttracker.Service.{
  while_running, Service, launch, arrive, work, work_all, waiting, Reachable, launched, next,
  arrived, worked, Steps, still, onward,
}
use bttracker.Service.Sends.{AreWhole, reachable-AreWhole}
use bttracker.Pool.Limits.{IsLimited}
use bttracker.Service.Outputs.{AreSent}
use bttracker.Service.Limits.{reachable-AreLimited}
use bttracker.Service.Echoes.{IsEcho, Heard, steps-AreEchoes}
use bttracker.Common.{All}
use bttracker.Exec.Pipelines.{Leaves}
use bttracker.Pool.Pipelines.{request_processor-Leaves}
use bttracker.Service.Counts.{load_of, received, received-Bounds}
use bttracker.Service.Drains.{AreApologies, work_all-drains}
use bttracker.Service.Serves.{work_all-serves}
use bttracker.Tests.Hosts.{plain, steady, dead, zeros}
use bttracker.Tests.Laws.{
  steady-HasMemory, steady-HasReplies, plain-HasPipeline, plain-HasMemory, plain-IsStore,
  plain-IsReadable, plain-HasBlocks, dead-HasMemory, dead-IsDown,
}
use bttracker.Tests.Cases.{prefix, config, request_of, job_of, full_db, full_world, steady_world}

abbrev client : Bytes
client = 10 ∷ 0 ∷ 0 ∷ 1 ∷ []

abbrev connect_datagram : Datagram
connect_datagram = record { payload = to_packet (request_fields (request_of 0)); sender = client }

abbrev before : Service plain
before = launch plain config [] full_world

abbrev connect_waits : Service plain
connect_waits = arrive (zeros 1496) (some connect_datagram) before

abbrev served : Service plain
served = work config 3 connect_waits

served-Reachable : Reachable config served
served-Reachable =
    next (next (launched [] full_world) (arrived (zeros 1496) (some connect_datagram) before refl))
      (worked 3 connect_waits)

reachable-AreWhole_example : AreWhole served.sent
reachable-AreWhole_example = reachable-AreWhole plain plain-HasBlocks config served-Reachable

reachable-AreLimited_example : AreSent (IsLimited config) served.sent
reachable-AreLimited_example =
    reachable-AreLimited plain plain-HasBlocks config (omega arith) served-Reachable

history : Steps config before served
history =
    onward (onward (still before) (arrived (zeros 1496) (some connect_datagram) before refl))
      (worked 3 connect_waits)

received-Bounds_example :
    load_of plain config served ≤ load_of plain config before + received plain config history
received-Bounds_example = received-Bounds plain config history

job_action :
    (action : ℕ)
    → action < 2 ^ 32
    → (read_request_data glibc little (job_of action).buff).action ≡ action
job_action action h = ap (λ (r : Request). r.action) (job_header action h)

abbrev task_of : ℕ → Task
task_of action = record { buff = (job_of action).buff; buflen = (job_of action).buflen }

abbrev dead_world : World dead
dead_world = record { redis = full_db; heap = 0; rng = 0 }

work_all-drains_example :
    (apologies : List (Bytes × ResponseBuffer)) × (w' : World dead) × (connected' : List Bool)
    × AreApologies dead dead-HasMemory dead-IsDown config client
        (task_of 0 ∷ task_of 1 ∷ [])
        apologies
    × (work_all config (0 ∷ 1 ∷ []) (
          waiting {p = dead} client (task_of 0 ∷ task_of 1 ∷ []) dead_world (replicate 10 false) [])
        ≡ waiting client [] w' connected' apologies)
work_all-drains_example =
    work_all-drains dead dead-HasMemory dead-IsDown config client (task_of 0 ∷ task_of 1 ∷ [])
      dead_world (replicate 10 false) [] (0 ∷ 1 ∷ []) refl (omega arith, (omega arith, tt))

work_all-serves_example :
    (w' : World steady) × (connected' : List Bool) × (sent' : List (Bytes × ResponseBuffer))
    × (work_all config (0 ∷ 1 ∷ []) (
          waiting {p = steady} client
            (task_of 0 ∷ task_of 2 ∷ [])
            steady_world
            (replicate 10 false)
            [])
        ≡ waiting client [] w' connected' sent')
work_all-serves_example =
    work_all-serves steady steady-HasMemory tt config prefix refl steady-HasReplies client
      (task_of 0 ∷ task_of 2 ∷ []) steady_world (replicate 10 false) [] (0 ∷ 1 ∷ []) refl
      (omega arith, (omega arith, tt))
      (
        inl (job_action 0 (omega arith)),
        (inr (inl (job_action 2 (omega arith), omega arith, omega arith)), tt),
      )

request_processor-Returns_example : Returns (request_processor steady config false (job_of 2))
request_processor-Returns_example =
    request_processor-Returns steady steady-HasMemory steady-HasReplies tt config prefix refl false
      (job_of 2) (inr (inl (job_action 2 (omega arith), omega arith, omega arith)))

connect_waits-Reachable : Reachable config connect_waits
connect_waits-Reachable =
    next (launched [] full_world) (arrived (zeros 1496) (some connect_datagram) before refl)

abbrev connect_job : Job
connect_job = record {
  buff = (clone (zeros 1496) connect_datagram).buff;
  buflen = (clone (zeros 1496) connect_datagram).buflen;
  from_addr = client;
}

connect_starts :
    start connect_waits.server ≡ some (connect_job, record { si_other = client; queue = [] })
unfolding start start_with launch while_running arrive receive
connect_starts = refl

reachable_job-IsJob_example : IsJob connect_job
reachable_job-IsJob_example =
    reachable_job-IsJob plain config connect_waits-Reachable connect_job
      (record { si_other = client; queue = [] }) connect_starts

-- No thread has a connection, and each gets one.
threads_ready :
    (kept : Bool)
    → get_elem? (replicate 10 false) 3 ≡ some kept
    → (ensure_redis plain config kept full_world).0 ≡ done true
threads_ready kept e =
    subst (λ k. (ensure_redis plain config k full_world).0 ≡ done true)
      (some-injective false kept e) server_there

arrive-work_example :
    (id : ℕ) × (w' : World plain) × (work config 3 (
        arrive
          (zeros 1496)
          (some (datagram_of plain plain-HasMemory tt config prefix refl (request_of 0) client))
          (waiting {p = plain} [] [] full_world (replicate 10 false) []))
      ≡ waiting client [] w' (set (replicate 10 false) 3 true) (
          (
            client,
            answer_of plain plain-HasMemory tt config prefix refl plain-IsStore plain-IsReadable
                (request_of 0)
                id,
          )
          ∷ []))
    × IsKept plain plain-HasMemory tt config prefix refl plain-IsStore plain-IsReadable id w'
arrive-work_example =
    arrive-work plain plain-HasMemory tt config prefix refl plain-IsStore plain-IsReadable
      (request_of 0) client (zeros 1496) [] full_world (replicate 10 false) [] 3
      (request_of-IsRequest 0 (omega arith)) refl refl (omega arith) threads_ready

steps-AreEchoes_example : All (IsEcho plain config (λ b. Heard plain config b history)) served.sent
steps-AreEchoes_example = steps-AreEchoes plain config [] full_world served history

request_processor-Leaves_example :
    Leaves plain-HasPipeline 0 0 (request_processor plain config true (job_of 1))
request_processor-Leaves_example =
    request_processor-Leaves plain plain-HasPipeline config true (job_of 1)
