-- ===== src/Pool/Outages.antt =====
-- A worker whose server is out of reach.
use bttracker.Common.{◌≡◌, Bool, true, false}
use bttracker.Data.{Config}
use bttracker.Platform.{Platform, World}
use bttracker.Exec.{done}
use bttracker.Redis.{redis_ping}
use bttracker.Redis.Outages.{IsDown, redis_connect_down, redis_ping_down}
use bttracker.Pool.{connect, ensure_redis}

-- No worker gets a connection, whether its thread kept one or not.
pub ensure_redis_down :
    (p : Platform)
    → IsDown p
    → (config : Config) (connected : Bool) (w : World p)
    → (ensure_redis p config connected w).0 ≡ done false
unfolding ensure_redis connect
ensure_redis_down p down config true w =
    rw (redis_ping_down p down w) (redis_connect_down p down (redis_ping p w).1 _ _ _ _ _)
ensure_redis_down p down config false w = redis_connect_down p down w _ _ _ _ _
