-- ===== src/Platform/Stores.antt =====
-- Redis as a store of texts: what its documentation says of the commands that change peers. A key
-- that has expired has no text.
use bttracker.Common.{ℕ, ◌^◌, ◌<◌, ◌≡◌, ◌≢◌, Option, none, some, [], ◌∷◌, if◌then◌else◌}
use bttracker.Memory.{Bytes}
use bttracker.Text.{codes, print_int, str_eq}
use bttracker.Platform.{Platform, Reply, ReplyType}

-- The reply to a RENAME: an error exactly where there is no such key.
abbrev pub IsRenamed : Option Bytes → Option Reply → Type 0
IsRenamed old none = ⊥
IsRenamed none (some r) = r.type ≡ ReplyType.error
IsRenamed (some v) (some r) = r.type ≢ ReplyType.error

-- The text of key `j` after key `a` was renamed to `b`.
abbrev pub renamed : Option Bytes → Bytes → Bytes → Bytes → Option Bytes → Option Bytes
renamed none a b j before = before
renamed (some v) a b j before = if str_eq b j then some v else if str_eq a j then none else before

pub record IsStore (p : Platform) : Type 0 where
  pub value : p.Redis → Bytes → Option Bytes
  -- A positive time to live.
  pub setex :
      (key text : Bytes) (ttl : ℕ) (s : p.Redis) (j : Bytes)
      → 0 < ttl
      → ttl < 2 ^ 31
      → value (p.redis_command (codes "SETEX" ∷ key ∷ print_int ttl ∷ text ∷ []) s).1 j
        ≡ (if str_eq key j then some text else value s j)
  pub del :
      (key : Bytes) (s : p.Redis) (j : Bytes)
      → value (p.redis_command (codes "DEL" ∷ key ∷ []) s).1 j
        ≡ (if str_eq key j then none else value s j)
  pub rename :
      (a b : Bytes) (s : p.Redis) (j : Bytes)
      → value (p.redis_command (codes "RENAME" ∷ a ∷ b ∷ []) s).1 j
        ≡ renamed (value s a) a b j (value s j)
  pub rename_reply :
      (a b : Bytes) (s : p.Redis)
      → IsRenamed (value s a) (p.redis_command (codes "RENAME" ∷ a ∷ b ∷ []) s).0
  -- A field of a hash is no text.
  pub hincrby :
      (key field by : Bytes) (s : p.Redis) (j : Bytes)
      → value (p.redis_command (codes "HINCRBY" ∷ key ∷ field ∷ by ∷ []) s).1 j ≡ value s j

-- The reply to a GET of a key that has a text, and of one that is not there.
abbrev pub IsGot : Option Bytes → Reply → Type 0
IsGot none r = r.type ≡ ReplyType.nil
IsGot (some text) r = (r.type ≡ ReplyType.string) × (r.str ≡ some text)

-- A store that answers, whose lookups tell its texts.
pub record IsReadable (p : Platform) (store : IsStore p) : Type 0 where
  pub get :
      (key : Bytes) (s : p.Redis)
      → (r : Reply) × ((p.redis_command (codes "GET" ∷ key ∷ []) s).0 ≡ some r)
        × IsGot (store.value s key) r
