-- ===== src/Platform/Pipelines.antt =====
-- Commands that were sent and replies that are still to come, by hiredis's documentation of
-- pipelining.
use bttracker.Common.{ℕ, suc, ◌≡◌, Option, none, some, List}
use bttracker.Memory.{Bytes}
use bttracker.Platform.{Platform, Address}

-- `n` replies are to come, or the connection is lost.
abbrev pub IsUnread : ℕ → Option ℕ → Type 0
IsUnread n none = Unit
IsUnread n (some k) = k ≡ n

-- For the connection of the thread that runs, `unread` has the count of the replies to come, and
-- nothing for a connection that is lost.
-- `redisAppendCommand` adds one, `redisGetReply` takes one, `redisCommand` reads as many as it
-- sends, and a new connection has none. Each of them may lose the connection.
pub record HasPipeline (p : Platform) : Type 0 where
  pub unread : p.Redis → Option ℕ
  pub unread_append :
      (n : ℕ) (words : List Bytes) (s : p.Redis)
      → IsUnread n (unread s)
      → IsUnread (suc n) (unread (p.redis_append_command words s))
  pub unread_get :
      (n : ℕ) (s : p.Redis)
      → IsUnread (suc n) (unread s)
      → IsUnread n (unread (p.redis_get_reply s).1)
  pub unread_command :
      (n : ℕ) (words : List Bytes) (s : p.Redis)
      → IsUnread n (unread s)
      → IsUnread n (unread (p.redis_command words s).1)
  pub unread_connect :
      (address : Address) (timeout : ℕ) (s : p.Redis)
      → IsUnread 0 (unread (p.redis_connect address timeout s).1)
