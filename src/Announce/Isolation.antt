-- ===== src/Announce/Isolation.antt =====
-- What an announce leaves alone: the other torrents, and the connections.
use bttracker.Common.{
  ℕ, ◌^◌, ◌<◌, ◌≡◌, ◌≢◌, refl, sym, ap, ◌∙◌, Bool, true, false, ◌||◌, Option, none, some, ◌==◌,
  Bool-cases, inl, inr, length, All,
}
use bttracker.Memory.{Bytes, IsByte, hton, load}
use bttracker.Text.{str_eq, str_eq_sound}
use bttracker.Data.{
  Config, AnnounceRequest, event_none, event_completed, event_started, event_stopped,
}
use bttracker.Platform.{Platform, World}
use bttracker.Platform.Laws.{HasMemory}
use bttracker.Platform.Stores.{IsStore, renamed}
use bttracker.Hex.{hex_digits}
use bttracker.Redis.{swarm_key, connection_key}
use bttracker.Redis.Keys.{swarm_key-injective, keys_differ}
use bttracker.Peers.{peer_object, peer_of_request, new_peer}
use bttracker.Peers.Effects.{new_peer-done, insert_peer-done, remove_peer-done, promote_peer-done}
use bttracker.Announce.{update_peer_list}

differ-str_eq : (s t : Bytes) → s ≢ t → str_eq s t ≡ false
differ-str_eq s t h = elim (Bool-cases (str_eq s t)) [
  | inl e ↦ absurd (h (str_eq_sound s t e))
  | inr e ↦ e
]

renamed_outside :
    (old : Option Bytes) (a b x : Bytes) (before : Option Bytes)
    → str_eq a x ≡ false
    → str_eq b x ≡ false
    → renamed old a b x before ≡ before
renamed_outside none a b x before h k = refl
renamed_outside (some text) a b x before h k = rw (k, h)

module _ (p : Platform) (memory : HasMemory p) (store : IsStore p) (config : Config)
    (prefix : Bytes) (has_prefix : config.redis_key_prefix ≡ some prefix)
    (positive : 0 < config.announce_peer_ttl) (bounded : config.announce_peer_ttl < 2 ^ 31)
    (request : AnnounceRequest) (client_addr hash : Bytes) (is_seeder : Bool) (w : World p) where
  -- A key that is none of the two of the peer.
  outside-value :
      (x : Bytes)
      → ((k : Bool) → str_eq (swarm_key prefix hash k request.peer_id) x ≡ false)
      → store.value (update_peer_list p config request client_addr hash is_seeder w).1.redis x
        ≡ store.value w.redis x
  unfolding update_peer_list
  outside-value x out = elim (Bool-cases (request.event == event_stopped)) [
    | inl stopped ↦ rw stopped (
        (remove_peer-done p store config prefix has_prefix hash request.peer_id w is_seeder x).1
        ∙ rw (out is_seeder))
    | inr running ↦ elim (Bool-cases (request.event == event_completed)) [
      | inl completed ↦
          rw (running, completed)
            ((promote_peer-done p store config prefix has_prefix hash request.peer_id w x).1
              ∙ renamed_outside _ _ _ x _ (out false) (out true))
      | inr partial ↦
          elim (Bool-cases (request.event == event_none || request.event == event_started)) [
            | inl known ↦
                let address = hton p.endian 4 (load p.endian client_addr) in
                let (runs, same) = new_peer-done p memory request address w in
                rw (running, partial, known, runs)
                  ((insert_peer-done p store config prefix has_prefix hash request.peer_id
                      (new_peer p request address w).1
                      (peer_object p (memory.block 40 w.heap) (peer_of_request request address))
                      is_seeder x positive bounded).1
                    ∙ rw (out is_seeder) (ap (λ r. store.value r x) same))
            | inr unknown ↦ rw (running, partial, unknown)
          ]
    ]
  ]

module _ (p : Platform) (memory : HasMemory p) (store : IsStore p) (config : Config)
    (prefix : Bytes) (has_prefix : config.redis_key_prefix ≡ some prefix)
    (positive : 0 < config.announce_peer_ttl) (bounded : config.announce_peer_ttl < 2 ^ 31)
    (request : AnnounceRequest) (client_addr hash : Bytes) (is_seeder : Bool) (w : World p) where
  -- With memory, a store that behaves as documented, a key prefix and a time to live that is
  -- positive and below 2 ^ 31: an announce of any event for one torrent leaves every entry of a
  -- torrent with another info hash of the same length, and every connection, as it was.
  pub update_peer_list-isolated :
      (hash' : Bytes)
      → All IsByte hash
      → All IsByte hash'
      → length hash ≡ length hash'
      → hash ≢ hash'
      → ((k : Bool) (peer_id : Bytes)
          → store.value
              (update_peer_list p config request client_addr (hex_digits hash) is_seeder w).1.redis
              (swarm_key prefix (hex_digits hash') k peer_id)
            ≡ store.value w.redis (swarm_key prefix (hex_digits hash') k peer_id))
        × ((id : ℕ)
            → store.value
                (update_peer_list p config request client_addr
                  (hex_digits hash)
                  is_seeder
                  w).1.redis
                (connection_key p prefix id)
              ≡ store.value w.redis (connection_key p prefix id))
  update_peer_list-isolated hash' b b' e other =
      let outside =
        outside-value p memory store config prefix has_prefix positive bounded request client_addr
          (hex_digits hash) is_seeder w in
      (
        λ k peer_id. outside (swarm_key prefix (hex_digits hash') k peer_id) (λ c.
            differ-str_eq _ _ (λ same.
              other
                (swarm_key-injective prefix hash hash' c k request.peer_id peer_id b b' e same).0)),
        λ id. outside (connection_key p prefix id) (λ c. differ-str_eq _ _ (λ same.
            (keys_differ prefix p id hash (hex_digits hash) request.peer_id c).1 (sym same))),
      )
