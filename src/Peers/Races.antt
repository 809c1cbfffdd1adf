-- ===== src/Peers/Races.antt =====
-- Two workers on one swarm: between the KEYS of one and its GETs, the other removes a peer.
use mathlib.Core.List.{Memᴰ}
use mathlib.Core.List.Perm
use mathlib.Core.List.Memᴰ
use bttracker.Common.{◌≡◌, Option, some, List, [], ◌∷◌}
use bttracker.Memory.{Bytes}
use bttracker.Platform.{Platform, Reply}
use bttracker.Platform.Stores.{IsStore}
use bttracker.Platform.Pipelines.{HasPipeline}
use bttracker.Exec.{Outcome, done, fault, exit}
use bttracker.Peers.Replies.{queued}

abbrev pub IsFault : {A : Type 0} → Outcome A → Type 0
IsFault (done a) = ⊥
IsFault (fault x) = Unit
IsFault (exit c) = ⊥

module _ (p : Platform) where
  -- The replies to the GETs of these keys, in order, when the keys have these texts.
  abbrev pub Answered : (Bytes → Option Bytes) → List Bytes → p.Redis → Type 0
  Answered value [] t = Unit
  Answered value (key ∷ keys) t =
      (r : Reply) × ((p.redis_get_reply t).0 ≡ some r)
      × (r.str ≡ value key)
      × Answered value keys (p.redis_get_reply t).1

  -- On a connection that works, with no reply unread, queued GETs are answered with the texts.
  pub record HasQueue (pipe : HasPipeline p) (store : IsStore p) : Type 0 where
    pub replied :
        (keys : List Bytes) (s : p.Redis)
        → pipe.unread s ≡ some 0
        → Answered (store.value s) keys (queued p keys s)
