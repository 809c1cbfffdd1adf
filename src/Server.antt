-- ===== src/Server.antt =====
-- src/bttracker.c: the loop that receives datagrams, and the moment at which a worker of the pool
-- starts on a job. `recvfrom` is an input: a datagram with its sender, or a failure.
pub mod Jobs
pub mod Senders
pub mod Leftovers
use bttracker.Common.{ℕ, ◌≡◌, Option, none, some, List, [], ◌∷◌, ◌++◌, length, take, drop}
use bttracker.Memory.{Bytes}
use bttracker.Data.{recv_buflen}
use bttracker.Pool.{Job}

-- What arrives; `sender` has the four bytes of `sin_addr.s_addr`.
pub record Datagram : Type 0 where
  pub payload : Bytes
  pub sender : Bytes

-- `bt_job_params_t` while it waits: its `from_addr` points to `si_other`, so it holds no address.
pub record Task : Type 0 where
  pub buff : Bytes
  pub buflen : ℕ

pub record Server : Type 0 where
  pub si_other : Bytes
  pub queue : List Task

-- What `recvfrom` writes: the datagram, cut off at the size of the buffer.
pub arrived : Datagram → Bytes
arrived d = take recv_buflen d.payload

-- The clone of the buffer, whose uninitialised bytes are `buff`, and the length.
pub clone : Bytes → Datagram → Task
unfolding arrived
clone buff d = record {
  buff = arrived d ++ drop (length (arrived d)) buff;
  buflen = length (arrived d);
}

-- One round of the loop.
unfoldable pub receive : Bytes → Option Datagram → Server → Server
unfolding clone
receive buff none s = s
receive buff (some d) s = record { si_other = d.sender; queue = s.queue ++ (clone buff d ∷ []) }

-- A worker takes the first job and reads through its pointer.
unfoldable pub start_with : Bytes → List Task → Option (Job × Server)
start_with si_other [] = none
start_with si_other (t ∷ rest) = some (
  record { buff = t.buff; buflen = t.buflen; from_addr = si_other },
  record { si_other = si_other; queue = rest },
)

unfoldable pub start : Server → Option (Job × Server)
unfolding start_with
start s = start_with s.si_other s.queue

-- The loop and the workers in any order.
pub data Step : Server → Server → Type 0 where
  received :
      (buff : Bytes) (o : Option Datagram) (s : Server)
      → length buff ≡ recv_buflen
      → Step s (receive buff o s)
  started : (s s' : Server) (job : Job) → start s ≡ some (job, s') → Step s s'

pub data Reachable : Server → Type 0 where
  initial : (si_other : Bytes) → Reachable (record { si_other = si_other; queue = [] })
  next : {s s' : Server} → Reachable s → Step s s' → Reachable s'
