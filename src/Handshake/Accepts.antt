-- ===== src/Handshake/Accepts.antt =====
-- Which requests `bt_valid_request` lets through.
use mathlib.Core.Logic.{◌↔◌}
use bttracker.Common.{
  ℕ, ◌≤◌, ◌≡◌, ◌≢◌, ◌⊎◌, inl, inr, ap, arith, Bool, true, some, ◌==◌, Bool-cases,
}
use bttracker.Memory.{Bytes}
use bttracker.Data.{Config, Request, action_connect, action_announce, action_scrape, protocol_id}
use bttracker.Platform.{Platform, World, Reply, ReplyType}
use bttracker.Exec.{Outcome, done}
use bttracker.Redis.{connection_valid}
use bttracker.Redis.Effects.{reply_to, get_connection, connection_valid_iff}
use bttracker.Handshake.{valid_request}

module _ (p : Platform) (config : Config) (prefix : Bytes)
    (has_prefix : config.redis_key_prefix ≡ some prefix) where
  -- Redis answers the lookup of the identifier, and not with an error.
  abbrev pub IsKnown : ℕ → World p → Type 0
  IsKnown id w =
      (r : Reply) × (reply_to p (get_connection p config prefix has_prefix id) w ≡ some r)
      × (r.type ≢ ReplyType.error)

  abbrev pub IsAccepted : Request → ℕ → World p → Type 0
  IsAccepted req len w =
      ((req.action ≡ action_connect) × (req.connection_id ≡ protocol_id) × (16 ≤ len))
      ⊎ (((req.action ≡ action_announce) × (20 ≤ len) × IsKnown req.connection_id w)
          ⊎ ((req.action ≡ action_scrape) × (8 ≤ len) × IsKnown req.connection_id w))

  pub valid_connect :
      (req : Request) (len : ℕ) (w : World p)
      → req.action ≡ action_connect
      → req.connection_id ≡ protocol_id
      → 16 ≤ len
      → valid_request p config req len w ≡ (done true, w)
  unfolding valid_request
  valid_connect req len w a b c = ground arith

  abbrev Passes : Request → World p → Type 0
  Passes req w = (connection_valid p config req.connection_id w).0 ≡ done true

  -- The guards of the three branches.
  branch_of :
      (req : Request) (len : ℕ) (w : World p)
      → (valid_request p config req len w).0 ≡ done true
      → ((req.action ≡ action_connect) × (req.connection_id ≡ protocol_id) × (16 ≤ len))
        ⊎ (((req.action ≡ action_announce) × (20 ≤ len) × Passes req w)
            ⊎ ((req.action ≡ action_scrape) × (8 ≤ len) × Passes req w))
  unfolding valid_request
  branch_of req len w h = elim (Bool-cases (req.action == action_connect)) [
    | inl a ↦ inl (ground arith, ground arith, ground arith)
    | inr a ↦ elim (Bool-cases (req.action == action_announce)) [
      | inl b ↦ inr (inl (ground arith, ground arith, ground arith))
      | inr b ↦ inr (inr (ground arith, ground arith, ground arith))
    ]
  ]

  -- With a key prefix, a request is let through exactly if it is a connect with the protocol's
  -- number and 16 bytes at least, or an announce of 20 bytes or a scrape of 8 bytes at least
  -- whose lookup in Redis is answered by anything but an error.
  pub valid_request_iff :
      (req : Request) (len : ℕ) (w : World p)
      → ((valid_request p config req len w).0 ≡ done true) ↔ IsAccepted req len w
  unfolding valid_request
  valid_request_iff req len w = (
    λ h. elim (branch_of req len w h) [
      | inl c ↦ inl c
      | inr (inl (a, n, k)) ↦
          inr
            (inl (a, n, (connection_valid_iff p config prefix has_prefix req.connection_id w).0 k))
      | inr (inr (a, n, k)) ↦
          inr
            (inr (a, n, (connection_valid_iff p config prefix has_prefix req.connection_id w).0 k))
    ],
    elim [
      | inl (a, c, n) ↦ ap (λ (x : Outcome Bool × World p). x.0) (valid_connect req len w a c n)
      | inr (inl (a, n, k)) ↦
          ground (arith, (connection_valid_iff p config prefix has_prefix req.connection_id w).1 k)
      | inr (inr (a, n, k)) ↦
          ground (arith, (connection_valid_iff p config prefix has_prefix req.connection_id w).1 k)
    ],
  )
