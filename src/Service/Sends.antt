-- ===== src/Service/Sends.antt =====
-- What the program sends, in every state that it can reach.
use bttracker.Common.{List, ◌≡◌, sym, length, All, All-map}
use bttracker.Memory.{Bytes}
use bttracker.Data.{Config, ResponseBuffer}
use bttracker.Platform.{Platform}
use bttracker.Platform.Laws.{HasBlocks}
use bttracker.Exec.Responses.{IsPacket}
use bttracker.Pool.Whole.{request_processor-Ensures}
use bttracker.Service.{Service, Reachable}
use bttracker.Service.Outputs.{AreSent, reachable-AreSent}

-- No send reads beyond its block.
abbrev pub AreWhole : List (Bytes × ResponseBuffer) → Type 0
AreWhole = All (λ r. r.1.length ≡ length r.1.data_bytes)

module _ (p : Platform) (blocks : HasBlocks p) (config : Config) where
  reachable-ArePackets : {s : Service p} → Reachable config s → AreSent IsPacket s.sent
  reachable-ArePackets r =
      reachable-AreSent p config IsPacket (request_processor-Ensures p blocks config) r

  -- Where blocks are arrays of bytes of the size that was asked for, and objects on the stack have
  -- their size: in every state that the program can reach, every response that was handed to
  -- `sendto` has as many bytes as its length says.
  pub reachable-AreWhole : {s : Service p} → Reachable config s → AreWhole s.sent
  reachable-AreWhole r = All-map (λ r h. sym h.0) _ (reachable-ArePackets r)
