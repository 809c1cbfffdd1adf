-- ===== src/Redis/Outages.antt =====
-- A server that is out of reach.
use bttracker.Common.{ℕ, ◌≡◌, ◌≢◌, ◌⊎◌, inl, inr, refl, false, Option, none, [], ◌∷◌}
use bttracker.Memory.{Bytes}
use bttracker.Text.{codes}
use bttracker.Platform.{Platform, World, Address, Connection, null, failed, established}
use bttracker.Exec.{done, command}
use bttracker.Redis.{address, redis_connect, redis_ping, ping_ok}

-- No attempt to connect succeeds, and a PING over an old connection gets no reply.
pub record IsDown (p : Platform) : Type 0 where
  pub refused :
      (a : Address) (timeout : ℕ) (s : p.Redis) → (p.redis_connect a timeout s).0 ≢ established
  pub silent : (s : p.Redis) → (p.redis_command (codes "PING" ∷ []) s).0 ≡ none

not_established : (c : Connection) → c ≢ established → (c ≡ null) ⊎ (c ≡ failed)
not_established null h = inl refl
not_established failed h = inr refl
not_established established h = absurd (h refl)

module _ (p : Platform) (down : IsDown p) (w : World p) where
  pub redis_connect_down :
      (unix_sock host : Option Bytes) (port timeout db : ℕ)
      → (redis_connect p unix_sock host port timeout db w).0 ≡ done false
  unfolding redis_connect
  redis_connect_down unix_sock host port timeout db =
      elim (not_established _ (down.refused (address unix_sock host port) timeout w.redis)) [
        | inl e ↦ rw (e, redis_connect)
        | inr e ↦ rw (e, redis_connect)
      ]

  pub redis_ping_down : (redis_ping p w).0 ≡ done false
  unfolding redis_ping command ping_ok
  redis_ping_down = rw (down.silent w.redis)
