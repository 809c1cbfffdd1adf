-- ===== src/Peers/Effects.antt =====
-- What the functions on one peer do to a store of texts.
use bttracker.Common.{
  ℕ, ◌^◌, ◌<◌, ◌≡◌, refl, ◌∙◌, Bool, true, false, Option, none, some, List, [], ◌∷◌, if◌then◌else◌,
  inl, inr, Bool-cases,
}
use bttracker.Memory.{Bytes}
use bttracker.Text.{codes, str_eq}
use bttracker.Data.{Config, AnnounceRequest}
use bttracker.Platform.{Platform, World, Reply, ReplyType}
use bttracker.Platform.Laws.{HasMemory}
use bttracker.Platform.Stores.{IsStore, renamed}
use bttracker.Exec.{command, done}
use bttracker.Exec.Runs.{malloc_unchecked-done, redis-malloc_unchecked}
use bttracker.Redis.{swarm_key, is_type}
use bttracker.Redis.Effects.{
  after, reply_to, key_prefix-done, command-done, increment_downloads-done,
}
use bttracker.Peers.{
  peer_object, peer_of_request, new_peer, insert_peer, remove_peer, promoted, promote_peer,
}

module _ (p : Platform) (memory : HasMemory p) where
  pub new_peer-done :
      (request : AnnounceRequest) (sockaddr : ℕ) (w : World p)
      → ((new_peer p request sockaddr w).0
          ≡ done (peer_object p (memory.block 40 w.heap) (peer_of_request request sockaddr)))
        × ((new_peer p request sockaddr w).1.redis ≡ w.redis)
  unfolding new_peer
  new_peer-done request sockaddr w = (
    rw (malloc_unchecked-done p 40 w memory),
    rw (malloc_unchecked-done p 40 w memory) (redis-malloc_unchecked p 40 w),
  )

module _ (p : Platform) (store : IsStore p) (config : Config) (prefix : Bytes)
    (has_prefix : config.redis_key_prefix ≡ some prefix) (info_hash_str peer_id : Bytes)
    (w : World p) where
  pub insert_peer-done :
      (object : Bytes) (is_seeder : Bool) (x : Bytes)
      → 0 < config.announce_peer_ttl
      → config.announce_peer_ttl < 2 ^ 31
      → ((insert_peer p config info_hash_str peer_id object is_seeder w).0 ≡ done tt)
        × (store.value (insert_peer p config info_hash_str peer_id object is_seeder w).1.redis x ≡ (
            if str_eq (swarm_key prefix info_hash_str is_seeder peer_id) x
            then some object
            else store.value w.redis x))
  unfolding insert_peer command
  insert_peer-done object is_seeder x a b = (
    rw (key_prefix-done p config prefix has_prefix w),
    rw (key_prefix-done p config prefix has_prefix w) (
        store.setex (swarm_key prefix info_hash_str is_seeder peer_id) object
          config.announce_peer_ttl w.redis x a b),
  )

  pub remove_peer-done :
      (is_seeder : Bool) (x : Bytes)
      → ((remove_peer p config info_hash_str peer_id is_seeder w).0 ≡ done tt)
        × (store.value (remove_peer p config info_hash_str peer_id is_seeder w).1.redis x ≡ (
            if str_eq (swarm_key prefix info_hash_str is_seeder peer_id) x
            then none
            else store.value w.redis x))
  unfolding remove_peer command
  remove_peer-done is_seeder x = (
    rw (key_prefix-done p config prefix has_prefix w),
    rw (key_prefix-done p config prefix has_prefix w)
        (store.del (swarm_key prefix info_hash_str is_seeder peer_id) w.redis x),
  )

  abbrev rename_words : List Bytes
  rename_words =
      codes "RENAME"
      ∷ swarm_key prefix info_hash_str false peer_id
      ∷ swarm_key prefix info_hash_str true peer_id
      ∷ []

  -- What follows the reply changes no text.
  promoted-done :
      (o : Option Reply) (w1 : World p) (x : Bytes)
      → ((promoted p config info_hash_str o w1).0 ≡ done tt)
        × (store.value (promoted p config info_hash_str o w1).1.redis x ≡ store.value w1.redis x)
  unfolding promoted
  promoted-done none w1 x = (refl, refl)
  promoted-done (some r) w1 x = elim (Bool-cases (is_type ReplyType.error r)) [
    | inl e ↦ (rw e, rw e)
    | inr e ↦
        let counted = increment_downloads-done p config prefix has_prefix info_hash_str w1 in
        (rw (e, counted), rw (e, counted) (store.hincrby _ _ _ w1.redis x))
  ]

  pub promote_peer-done :
      (x : Bytes)
      → ((promote_peer p config info_hash_str peer_id w).0 ≡ done tt)
        × (store.value (promote_peer p config info_hash_str peer_id w).1.redis x
            ≡ renamed
                (store.value w.redis (swarm_key prefix info_hash_str false peer_id))
                (swarm_key prefix info_hash_str false peer_id)
                (swarm_key prefix info_hash_str true peer_id)
                x
                (store.value w.redis x))
  unfolding promote_peer
  promote_peer-done x =
      let (ends, same) = promoted-done (reply_to p rename_words w) (after p rename_words w) x in
      (
        rw (key_prefix-done p config prefix has_prefix w, command-done p rename_words w) ends,
        rw (key_prefix-done p config prefix has_prefix w, command-done p rename_words w)
            (same
              ∙ store.rename (swarm_key prefix info_hash_str false peer_id)
                  (swarm_key prefix info_hash_str true peer_id) w.redis x),
      )
