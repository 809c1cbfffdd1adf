-- ===== src/Platform/Laws.antt =====
-- The documented behaviour of the allocator, for theorems about runs that have memory.
use bttracker.Common.{ℕ, ◌≡◌, some, length, All}
use bttracker.Memory.{Bytes, IsByte}
use bttracker.Platform.{Platform, Reply}

-- `malloc` gives a block of the requested size, and an object on the stack has its size.
pub record HasMemory (p : Platform) : Type 0 where
  pub block : ℕ → p.Heap → Bytes
  pub malloc_block : (n : ℕ) (h : p.Heap) → (p.malloc n h).0 ≡ some (block n h)
  pub block_size : (n : ℕ) (h : p.Heap) → length (block n h) ≡ n
  pub stack_size : (n : ℕ) (h : p.Heap) → length (p.stack n h).0 ≡ n

-- The same where memory may run out: a block that is given has its size, and holds
-- bytes; an object on the stack has its size.
pub record HasBlocks (p : Platform) : Type 0 where
  pub stack_length : (n : ℕ) (h : p.Heap) → length (p.stack n h).0 ≡ n
  pub malloc_bytes : (n : ℕ) (h : p.Heap) (b : Bytes) → (p.malloc n h).0 ≡ some b → All IsByte b
  pub malloc_size : (n : ℕ) (h : p.Heap) (b : Bytes) → (p.malloc n h).0 ≡ some b → length b ≡ n

-- No call of `redisGetReply` fails: the connection is not lost between a command that is queued and
-- its reply.
pub record HasReplies (p : Platform) : Type 0 where
  pub reply : p.Redis → Reply
  pub get_reply_some : (s : p.Redis) → (p.redis_get_reply s).0 ≡ some (reply s)
