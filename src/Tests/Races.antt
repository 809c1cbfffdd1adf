-- ===== src/Tests/Races.antt =====
-- Two workers on one swarm, on the host with the small Redis.
use mathlib.Core.List.Memᴰ
use bttracker.Common.{true, Option, List, [], ◌∷◌}
use bttracker.Memory.{Bytes}
use bttracker.Text.{codes}
use bttracker.Platform.{World}
use bttracker.Peers.Replies.{all_keys}
use bttracker.Redis.Effects.{after}
use bttracker.Tests.Hosts.{Db, plain}
use bttracker.Tests.Cases.{prefix, hash_text, full_world}

abbrev gets : List Bytes → List (List Bytes)
gets [] = []
gets (key ∷ keys) = (codes "GET" ∷ key ∷ []) ∷ gets keys

abbrev db : (Bytes → Option Bytes) → List (List Bytes) → Db
db texts pending = record { texts = texts; pending = pending }

abbrev seeder_id : Bytes
seeder_id = codes "-XX0001-000000000001"

abbrev after_keys : World plain
after_keys = after plain (all_keys prefix hash_text true) full_world
