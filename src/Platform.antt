-- ===== src/Platform.antt =====
-- What the program takes from outside its own sources: the Redis server behind hiredis, the
-- allocator, `rand`, and double arithmetic. A platform is a parameter of every function that uses
-- one of these; the world holds the state of the three that change.
pub mod Floats
pub mod Laws
pub mod Stores
pub mod Pipelines
use bttracker.Common.{ℕ, Option, List}
use bttracker.Common.Int.{ℤ}
use bttracker.Memory.{Bytes, Endian}
use bttracker.ByteOrder.{Target}
use bttracker.Platform.Floats.{Double}

pub data ReplyType : Type 0 where
  string array integer nil status error : ReplyType

-- `redisReply`. `str` is NULL where the type has no text; `element` has the texts of an array's
-- elements, the only part of them that the program reads, and is empty for any other type.
pub record Reply : Type 0 where
  pub type : ReplyType
  pub integer : ℤ
  pub str : Option Bytes
  pub element : List Bytes

-- Where to connect, and what `redisConnect…WithTimeout` gives back: NULL, a context with its error
-- flag set, or a connection.
pub data Address : Type 0 where
  unix_socket : Bytes → Address
  tcp : Option Bytes → ℕ → Address

pub data Connection : Type 0 where
  null failed established : Connection

pub record Platform : Type 1 where
  pub target : Target
  pub endian : Endian
  pub double : Double
  pub Redis : Type 0
  pub Heap : Type 0
  pub Rng : Type 0
  -- The server and the connections of all threads, and the thread that runs: `redis_of_thread` is
  -- `g_private_get` in a thread, after which the calls below act on the connection of that thread.
  pub redis_of_thread : ℕ → Redis → Redis
  -- The address and the microseconds of the timeout, a `long` as a pattern of 64 bits.
  pub redis_connect : Address → ℕ → Redis → Connection × Redis
  -- `redisCommand` with the words that its format gives; NULL is `none`.
  pub redis_command : List Bytes → Redis → Option Reply × Redis
  pub redis_append_command : List Bytes → Redis → Redis
  -- `redisGetReply`: `none` is any result but REDIS_OK.
  pub redis_get_reply : Redis → Option Reply × Redis
  -- A new block with the bytes that it happens to hold, or NULL.
  pub malloc : ℕ → Heap → Option Bytes × Heap
  -- The bytes that an uninitialised object on the stack happens to hold.
  pub stack : ℕ → Heap → Bytes × Heap
  pub rand : Rng → ℕ × Rng
  pub rand_max : ℕ

pub record World (p : Platform) : Type 0 where
  pub redis : p.Redis
  pub heap : p.Heap
  pub rng : p.Rng
