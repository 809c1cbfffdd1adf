-- ===== src/Tests/Hosts.antt =====
-- A host to run the program on: a small Redis, an allocator that clears its blocks, and a constant
-- in the role of `rand`.
use bttracker.Common.{
  ℕ, zero, suc, ◌+◌, ◌-◌, ◌^◌, ◌≡◌, refl, ap, Option, none, some, List, [], ◌∷◌, ◌++◌, length,
  if◌then◌else◌, ltb,
}
use bttracker.Common.Int.{pos}
use bttracker.Memory.{Bytes, little}
use bttracker.ByteOrder.{glibc}
use bttracker.Text.{codes, str_eq}
use bttracker.Platform.{Platform, Reply, ReplyType, Connection, established, failed}
use bttracker.Platform.Stores.{renamed}
use bttracker.Tests.Arithmetic.{fixed}

abbrev pub zeros : ℕ → Bytes
zeros zero = []
zeros (suc n) = 0 ∷ zeros n

pub length-zeros : (n : ℕ) → length (zeros n) ≡ n
length-zeros zero = refl
length-zeros (suc n) = ap suc (length-zeros n)

-- The texts of the keys, and what was queued.
pub record Db : Type 0 where
  pub texts : Bytes → Option Bytes
  pub pending : List (List Bytes)

-- The count of downloads.
abbrev pub downloads_reply : Reply
downloads_reply = record {
  type = ReplyType.string;
  integer = pos 0;
  str = some (codes "12");
  element = [];
}

-- The keys that KEYS lists.
abbrev pub listing : List Bytes
listing =
    codes "bt:pr:6162636465666768696a6b6c6d6e6f7071727374:sd:-XX0001-000000000001"
    ∷ codes "k2"
    ∷ codes "k3"
    ∷ []

abbrev pub status_reply : Option Reply
status_reply =
    some
      (record { type = ReplyType.status; integer = pos 0; str = some (codes "OK"); element = [] })

abbrev pub refused_reply : Reply
refused_reply = record {
  type = ReplyType.error;
  integer = pos 0;
  str = some (codes "ERR");
  element = [];
}

abbrev pub error_reply : Option Reply
error_reply = some refused_reply

abbrev pub integer_reply : ℕ → Option Reply
integer_reply n =
    some (record { type = ReplyType.integer; integer = pos n; str = none; element = [] })

abbrev pub text_reply : Option Bytes → Option Reply
text_reply none = some (record { type = ReplyType.nil; integer = pos 0; str = none; element = [] })
text_reply (some s) =
    some (record { type = ReplyType.string; integer = pos 0; str = some s; element = [] })

abbrev pub rename_reply : Option Bytes → Option Reply
rename_reply none = error_reply
rename_reply (some s) = status_reply

-- A command with a key; every set has every member.
abbrev pub run_key : Bytes → Bytes → List Bytes → Db → Option Reply × Db
run_key name key args s =
    if str_eq name (codes "GET")
    then (text_reply (s.texts key), s)
    else if str_eq name (codes "DEL")
    then (integer_reply 1, record s { texts = λ j. if str_eq key j then none else s.texts j })
    else if str_eq name (codes "KEYS")
    then (
      some (record { type = ReplyType.array; integer = pos 0; str = none; element = listing }),
      s,
    )
    else elim args [
      | [] ↦ (status_reply, s)
      | b ∷ [] ↦
          if str_eq name (codes "RENAME")
          then (
            rename_reply (s.texts key),
            record s { texts = λ j. renamed (s.texts key) key b j (s.texts j) },
          )
          else if str_eq name (codes "HGET")
          then (some downloads_reply, s)
          else if str_eq name (codes "SISMEMBER")
          then (integer_reply 1, s)
          else (status_reply, s)
      | ttl ∷ text ∷ [] ↦
          if str_eq name (codes "SETEX")
          then (
            status_reply,
            record s { texts = λ j. if str_eq key j then some text else s.texts j },
          )
          else (integer_reply 1, s)
      | ttl ∷ text ∷ b ∷ more ↦ (status_reply, s)
    ]

abbrev pub run_command : List Bytes → Db → Option Reply × Db
run_command [] s = (none, s)
run_command (name ∷ []) s = (status_reply, s)
run_command (name ∷ key ∷ args) s = run_key name key args s

abbrev pub pop : Db → List (List Bytes) → Option Reply × Db
pop s [] = (none, s)
pop s (words ∷ more) = run_command words (record s { pending = more })

-- No thread leaves replies unread, so one queue of them is enough. `rand` always gives `draw`; blocks of `limit` bytes and more are refused.
abbrev pub host : ℕ → ℕ → Connection → Platform
host draw limit connection = record {
  target = glibc;
  endian = little;
  double = fixed;
  Redis = Db;
  Heap = ℕ;
  Rng = ℕ;
  redis_of_thread = λ n s. s;
  redis_connect = λ address timeout s. (connection, record s { pending = [] });
  redis_command = run_command;
  redis_append_command = λ words s. record s { pending = s.pending ++ (words ∷ []) };
  redis_get_reply = λ s. pop s s.pending;
  malloc = λ n h. (if ltb n limit then some (zeros n) else none, h + n);
  stack = λ n h. (zeros n, h);
  rand = λ g. (draw, g + 1);
  rand_max = 2 ^ 31 - 1;
}

-- The host that has memory for every block.
abbrev pub plain : Platform
plain = record (host 0 0 established) { malloc = λ n h. (some (zeros n), h + n) }

-- The same without a server.
abbrev pub offline : Platform
offline = record plain { redis_connect = λ address timeout s. (failed, s) }

-- The same, and a server that is gone: no command is answered.
abbrev pub dead : Platform
dead = record offline { redis_command = λ words s. (none, s) }

-- The same, but every GET is answered with nil.
abbrev pub forgetful : Platform
forgetful = record plain { redis_get_reply = λ s. (text_reply none, s) }

-- The same, but every command is refused.
abbrev pub refusing : Platform
refusing = record plain { redis_command = λ words s. (error_reply, s) }

-- The same, but every reply to a queued command is the text of a peer.
abbrev pub steady : Platform
steady = record plain { redis_get_reply = λ s. (text_reply (some (zeros 40)), s) }
