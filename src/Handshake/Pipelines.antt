-- ===== src/Handshake/Pipelines.antt =====
-- The replies of Redis that the check of a request reads.
use bttracker.Common.{ℕ, false, ◌&&◌, ◌==◌, leb}
use bttracker.Data.{Config, Request, protocol_id, action_connect, action_announce, action_scrape}
use bttracker.Platform.{Platform}
use bttracker.Platform.Pipelines.{HasPipeline}
use bttracker.Exec.Pipelines.{Leaves, Leaves-pure, Leaves-if}
use bttracker.Redis.Pipelines.{connection_valid-Leaves}
use bttracker.Handshake.{valid_request}

pub valid_request-Leaves :
    (p : Platform) (pipe : HasPipeline p) (n : ℕ) (config : Config) (req : Request) (len : ℕ)
    → Leaves pipe n n (valid_request p config req len)
unfolding valid_request
valid_request-Leaves p pipe n config req len =
    let known = connection_valid-Leaves p pipe n config req.connection_id in
    let refused = Leaves-pure n false in
    Leaves-if n n (req.action == action_connect) _ _
      (Leaves-pure n (protocol_id == req.connection_id && leb 16 len))
      (Leaves-if n n (req.action == action_announce) _ _
        (Leaves-if n n (leb 20 len) _ _ known refused)
        (Leaves-if n n (req.action == action_scrape) _ _
          (Leaves-if n n (leb 8 len) _ _ known refused) refused))
