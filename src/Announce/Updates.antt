-- ===== src/Announce/Updates.antt =====
-- `bt_update_peer_list` against an abstract swarm: who seeds and who leeches, each with what was
-- stored for it. Over a store that behaves as documented, each event changes the swarm as the
-- abstract operation says.
use bttracker.Common.{
  ℕ, ◌^◌, ◌<◌, ◌≡◌, refl, ap, ◌∙◌, arith, Bool, true, false, not, ◌&&◌, ◌||◌, Option, none, some,
  [], ◌∷◌, ◌++◌, ◌==◌, if◌then◌else◌, Bool-cases, inl, inr,
}
use bttracker.Memory.{Bytes, hton, load}
use bttracker.Text.{str_eq}
use bttracker.Data.{
  Config, AnnounceRequest, event_none, event_completed, event_started, event_stopped,
}
use bttracker.Platform.{Platform, World}
use bttracker.Platform.Laws.{HasMemory}
use bttracker.Platform.Stores.{IsStore, renamed}
use bttracker.Exec.{Outcome, done}
use bttracker.Redis.{swarm_key}
use bttracker.Peers.{peer_object, peer_of_request, new_peer, insert_peer}
use bttracker.Peers.Effects.{new_peer-done, insert_peer-done, remove_peer-done, promote_peer-done}
use bttracker.Announce.{update_peer_list}

-- The text kept for a peer as a seeder (`true`) and as a leecher.
abbrev pub Swarm : Type 0
Swarm = Bool → Bytes → Option Bytes

abbrev pub same_kind : Bool → Bool → Bool
same_kind true c = c
same_kind false c = not c

abbrev pub put : Swarm → Bool → Bytes → Option Bytes → Swarm
put swarm kind peer_id text c j = if same_kind kind c && str_eq peer_id j then text else swarm c j

-- A leecher becomes a seeder; a peer that is no leecher changes nothing.
abbrev pub promote : Option Bytes → Swarm → Bytes → Swarm
promote none swarm peer_id = swarm
promote (some text) swarm peer_id = put (put swarm false peer_id none) true peer_id (some text)

-- What an event does.
abbrev pub announce : ℕ → Swarm → Bool → Bytes → Bytes → Swarm
announce event swarm is_seeder peer_id object =
    if event == event_stopped
    then put swarm is_seeder peer_id none
    else if event == event_completed
    then promote (swarm false peer_id) swarm peer_id
    else if event == event_none || event == event_started
    then put swarm is_seeder peer_id (some object)
    else swarm

str_eq_prefix : (pre s t : Bytes) → str_eq (pre ++ s) (pre ++ t) ≡ str_eq s t
unfolding str_eq
str_eq_prefix [] s t = refl
str_eq_prefix (c ∷ pre) s t = ground (arith, str_eq_prefix pre s t)

-- Two keys of one torrent are the same text exactly if they are of one kind and one peer.
str_eq-swarm_key :
    (prefix hash : Bytes) (k c : Bool) (id j : Bytes)
    → str_eq (swarm_key prefix hash k id) (swarm_key prefix hash c j)
      ≡ (same_kind k c && str_eq id j)
unfolding swarm_key str_eq
str_eq-swarm_key prefix hash true true id j = str_eq_prefix prefix _ _ ∙ str_eq_prefix hash _ _
str_eq-swarm_key prefix hash true false id j = str_eq_prefix prefix _ _ ∙ str_eq_prefix hash _ _
str_eq-swarm_key prefix hash false true id j = str_eq_prefix prefix _ _ ∙ str_eq_prefix hash _ _
str_eq-swarm_key prefix hash false false id j = str_eq_prefix prefix _ _ ∙ str_eq_prefix hash _ _

-- The swarm of a torrent that a store holds.
abbrev pub swarm_of : (Bytes → Option Bytes) → Bytes → Bytes → Swarm
swarm_of value prefix hash c j = value (swarm_key prefix hash c j)

-- A change of one key is a change of one peer.
swarm_of-put :
    (before : Bytes → Option Bytes) (after_one : Bytes → Option Bytes) (prefix hash : Bytes)
    (k : Bool) (id : Bytes) (text : Option Bytes)
    → ((x : Bytes)
        → after_one x ≡ (if str_eq (swarm_key prefix hash k id) x then text else before x))
    → (c : Bool) (j : Bytes)
    → swarm_of after_one prefix hash c j ≡ put (swarm_of before prefix hash) k id text c j
swarm_of-put before after_one prefix hash k id text changes c j =
    rw (changes (swarm_key prefix hash c j), str_eq-swarm_key prefix hash k c id j)

-- A renaming of the leecher's key is a promotion.
swarm_of-promote :
    (before : Bytes → Option Bytes) (after_one : Bytes → Option Bytes) (prefix hash : Bytes)
    (id : Bytes) (old : Option Bytes)
    → ((x : Bytes)
        → after_one x
          ≡ renamed old
              (swarm_key prefix hash false id)
              (swarm_key prefix hash true id)
              x
              (before x))
    → (c : Bool) (j : Bytes)
    → swarm_of after_one prefix hash c j ≡ promote old (swarm_of before prefix hash) id c j
swarm_of-promote before after_one prefix hash id none changes c j =
    changes (swarm_key prefix hash c j)
swarm_of-promote before after_one prefix hash id (some text) changes c j = rw (
  changes (swarm_key prefix hash c j),
  str_eq-swarm_key prefix hash true c id j,
  str_eq-swarm_key prefix hash false c id j,
)

module _ (p : Platform) (memory : HasMemory p) (store : IsStore p) (config : Config)
    (prefix : Bytes) (has_prefix : config.redis_key_prefix ≡ some prefix)
    (positive : 0 < config.announce_peer_ttl) (bounded : config.announce_peer_ttl < 2 ^ 31)
    (request : AnnounceRequest) (client_addr hash : Bytes) (is_seeder : Bool) (w : World p) where
  abbrev announced_object : Bytes
  announced_object =
      peer_object p (memory.block 40 w.heap)
        (peer_of_request request (hton p.endian 4 (load p.endian client_addr)))

  -- A peer that is not there is written anew.
  abbrev written : Outcome (Unit {0}) × World p
  written =
      let made = new_peer p request (hton p.endian 4 (load p.endian client_addr)) w in
      insert_peer p config hash request.peer_id announced_object is_seeder made.1

  written-put :
      (written.0 ≡ done tt)
      × ((c : Bool) (j : Bytes)
          → swarm_of (store.value written.1.redis) prefix hash c j
            ≡ put
                (swarm_of (store.value w.redis) prefix hash)
                is_seeder
                request.peer_id
                (some announced_object)
                c
                j)
  written-put =
      let made = (new_peer p request (hton p.endian 4 (load p.endian client_addr)) w).1 in
      let (runs, same) =
        new_peer-done p memory request (hton p.endian 4 (load p.endian client_addr)) w in
      let insert =
        insert_peer-done p store config prefix has_prefix hash request.peer_id made announced_object
          is_seeder in
      (
        (insert [] positive bounded).0,
        swarm_of-put (store.value w.redis) (store.value written.1.redis) prefix hash is_seeder
            request.peer_id (some announced_object)
            (λ x.
              (insert x positive bounded).1
              ∙ ap
                  (λ r.
                    if str_eq (swarm_key prefix hash is_seeder request.peer_id) x
                    then some announced_object
                    else store.value r x)
                  same),
      )

  -- With memory, a store that behaves as documented, a key prefix, and a time to live that is
  -- positive and below 2 ^ 31, the update ends, and the swarm of the torrent is what the abstract
  -- operation `announce` makes of the swarm before: with event stopped, the peer's entry of the kind
  -- that `is_seeder` names goes, and its entry of the other kind stays if there is one; with event
  -- completed, its leecher's entry becomes its seeder's entry if there is one; with event none or
  -- started, its entry of the kind that `is_seeder` names is stored anew, and its entry of the other
  -- kind stays if there is one; any other event changes nothing.
  pub update_peer_list-announce :
      ((update_peer_list p config request client_addr hash is_seeder w).0 ≡ done tt)
      × ((c : Bool) (j : Bytes)
          → swarm_of
              (store.value (update_peer_list p config request client_addr hash is_seeder w).1.redis)
              prefix
              hash
              c
              j
            ≡ announce request.event
                (swarm_of (store.value w.redis) prefix hash)
                is_seeder
                request.peer_id
                announced_object
                c
                j)
  unfolding update_peer_list
  update_peer_list-announce = elim (Bool-cases (request.event == event_stopped)) [
    | inl stopped ↦
        let remove =
          remove_peer-done p store config prefix has_prefix hash request.peer_id w is_seeder in
        (
          rw stopped (remove []).0,
          λ c j.
              rw stopped (
                swarm_of-put _ _ prefix hash is_seeder request.peer_id none (λ x. (remove x).1) c
                  j),
        )
    | inr running ↦ elim (Bool-cases (request.event == event_completed)) [
      | inl completed ↦
          let change = promote_peer-done p store config prefix has_prefix hash request.peer_id w in
          (
            rw (running, completed) (change []).0,
            λ c j.
                rw (running, completed)
                  (swarm_of-promote (store.value w.redis) _ prefix hash request.peer_id _
                    (λ x. (change x).1) c j),
          )
      | inr partial ↦
          elim (Bool-cases (request.event == event_none || request.event == event_started)) [
            | inl known ↦
                let (runs, same) =
                  new_peer-done p memory request (hton p.endian 4 (load p.endian client_addr)) w in
                (
                  rw (running, partial, known, runs) written-put.0,
                  λ c j. rw (running, partial, known, runs) (written-put.1 c j),
                )
            | inr unknown ↦ (rw (running, partial, unknown), λ c j. rw (running, partial, unknown))
          ]
    ]
  ]
