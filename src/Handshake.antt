-- ===== src/Handshake.antt =====
-- src/handshake.c: which requests are let through.
pub mod Accepts
pub mod Returns
pub mod Pipelines
pub mod Sessions
use bttracker.Common.{ℕ, Bool, true, false, ◌&&◌, ltb, leb, ◌==◌, if◌then◌else◌}
use bttracker.Data.{Config, Request, action_connect, action_announce, action_scrape, protocol_id}
use bttracker.Platform.{Platform}
use bttracker.Exec.{M, pure}
use bttracker.Redis.{connection_valid}

pub valid_request : (p : Platform) → Config → Request → ℕ → M p Bool
valid_request p config req packetlen =
    if req.action == action_connect
    then pure (protocol_id == req.connection_id && leb 16 packetlen)
    else if req.action == action_announce
    then (if leb 20 packetlen then connection_valid p config req.connection_id else pure false)
    else if req.action == action_scrape
    then (if leb 8 packetlen then connection_valid p config req.connection_id else pure false)
    else pure false
