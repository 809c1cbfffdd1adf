-- ===== src/Server/Jobs.antt =====
-- What a worker may rely on in every job.
use mathlib.Core.Option.{some-injective}
use bttracker.Common.{
  ℕ, zero, suc, ◌≤◌, ◌≡◌, arith, Option, none, some, List, [], ◌∷◌, ◌++◌, length, take, drop, All,
  length-append, length-drop,
}
use mathlib.Core.Path.{subst}
use bttracker.Memory.{Bytes}
use bttracker.Data.{recv_buflen}
use bttracker.Pool.{Job}
use bttracker.Server.{
  Datagram, Task, Server, arrived, clone, receive, start_with, start, received, started, Reachable,
  initial, next,
}

-- The buffer has its full size, and the length lies within it.
abbrev pub IsTask : Task → Type 0
IsTask t = (length t.buff ≡ recv_buflen) × (t.buflen ≤ recv_buflen)

abbrev pub IsJob : Job → Type 0
IsJob job = (length job.buff ≡ recv_buflen) × (job.buflen ≤ recv_buflen)

length-take-le : (n : ℕ) (bs : Bytes) → length (take n bs) ≤ n
length-take-le zero bs = omega arith
length-take-le (suc n) [] = omega arith
length-take-le (suc n) (b ∷ bs) = omega (arith, length-take-le n bs)

clone-IsTask : (buff : Bytes) (d : Datagram) → length buff ≡ recv_buflen → IsTask (clone buff d)
unfolding clone arrived
clone-IsTask buff d h =
    let short = length-take-le recv_buflen d.payload in
    (
      omega (
        arith,
        short,
        h,
        length-append (take recv_buflen d.payload)
            (drop (length (take recv_buflen d.payload)) buff),
        length-drop (length (take recv_buflen d.payload)) buff,
      ),
      short,
    )

All-append : (xs ys : List Task) → All IsTask xs → All IsTask ys → All IsTask (xs ++ ys)
All-append [] ys h k = k
All-append (x ∷ xs) ys h k = (h.0, All-append xs ys h.1 k)

receive-IsTask :
    (buff : Bytes) (o : Option Datagram) (s : Server)
    → length buff ≡ recv_buflen
    → All IsTask s.queue
    → All IsTask (receive buff o s).queue
unfolding receive
receive-IsTask buff none s h k = k
receive-IsTask buff (some d) s h k =
    All-append s.queue (clone buff d ∷ []) k (clone-IsTask buff d h, tt)

start_with-IsJob :
    (si_other : Bytes) (queue : List Task) (job : Job) (s : Server)
    → start_with si_other queue ≡ some (job, s)
    → All IsTask queue
    → IsJob job × All IsTask s.queue
unfolding start_with
start_with-IsJob si_other [] job s e h = cc
start_with-IsJob si_other (t ∷ rest) job s e h =
    subst (λ (r : Job × Server). IsJob r.0 × All IsTask r.1.queue) (some-injective _ _ e) (h.0, h.1)

start-IsJob :
    (s s' : Server) (job : Job)
    → start s ≡ some (job, s')
    → All IsTask s.queue
    → IsJob job × All IsTask s'.queue
unfolding start
start-IsJob s s' job e h = start_with-IsJob s.si_other s.queue job s' e h

queue-IsTask : {s : Server} → Reachable s → All IsTask s.queue
queue-IsTask (initial si_other) = tt
queue-IsTask (next r (received buff o s h)) = receive-IsTask buff o s h (queue-IsTask r)
queue-IsTask (next r (started s s' job e)) = (start-IsJob s s' job e (queue-IsTask r)).1

-- Whatever the order in which datagrams arrive and workers start, a job that starts has a buffer of
-- 1496 bytes, and a length of no more.
pub reachable-IsJob :
    (s s' : Server) (job : Job) → Reachable s → start s ≡ some (job, s') → IsJob job
reachable-IsJob s s' job r e = (start-IsJob s s' job e (queue-IsTask r)).0
