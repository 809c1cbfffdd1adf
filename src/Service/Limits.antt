-- ===== src/Service/Limits.antt =====
-- How long the datagrams are that the program sends.
use bttracker.Common.{◌^◌, ◌<◌}
use bttracker.Data.{Config}
use bttracker.Platform.{Platform}
use bttracker.Platform.Laws.{HasBlocks}
use bttracker.Pool.Limits.{IsLimited, request_processor-Limited}
use bttracker.Service.{Service, Reachable}
use bttracker.Service.Outputs.{AreSent, reachable-AreSent}

-- Where blocks are arrays of bytes of the size that was asked for, objects on the stack have their
-- size, and fewer than 2 ^ 31 peers are allowed in an announce: in every state that the program can reach, every response that was handed to `sendto`
-- has 125 bytes at most, or 20 and 6 for each peer that is allowed, whatever Redis answered and
-- the clients sent.
pub reachable-AreLimited :
    (p : Platform)
    → HasBlocks p
    → (config : Config) → config.announce_max_numwant < 2 ^ 31
    → {s : Service p} → Reachable config s
    → AreSent (IsLimited config) s.sent
reachable-AreLimited p blocks config few r =
    reachable-AreSent p config (IsLimited config) (request_processor-Limited p blocks config few) r
