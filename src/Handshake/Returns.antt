-- ===== src/Handshake/Returns.antt =====
-- With a key prefix, the check of a request ends whatever Redis answers.
use bttracker.Common.{ℕ, ◌≡◌, false, ◌&&◌, some, ◌==◌, leb}
use bttracker.Memory.{Bytes}
use bttracker.Data.{Config, Request, protocol_id, action_connect, action_announce, action_scrape}
use bttracker.Platform.{Platform}
use bttracker.Exec.Returns.{Returns, Returns-pure, Gives-if}
use bttracker.Redis.Returns.{connection_valid-Returns}
use bttracker.Handshake.{valid_request}

pub valid_request-Returns :
    (p : Platform) (config : Config) (prefix : Bytes)
    → config.redis_key_prefix ≡ some prefix
    → (req : Request) (len : ℕ) → Returns (valid_request p config req len)
unfolding valid_request
valid_request-Returns p config prefix has_prefix req len =
    let known = connection_valid-Returns p config prefix has_prefix req.connection_id in
    Gives-if (req.action == action_connect) _ _
      (Returns-pure (protocol_id == req.connection_id && leb 16 len))
      (Gives-if (req.action == action_announce) _ _
        (Gives-if (leb 20 len) _ _ known (Returns-pure false))
        (Gives-if (req.action == action_scrape) _ _
          (Gives-if (leb 8 len) _ _ known (Returns-pure false)) (Returns-pure false)))
