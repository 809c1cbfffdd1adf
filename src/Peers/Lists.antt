-- ===== src/Peers/Lists.antt =====
-- `bt_peer_list`: the list that the replies make, its length, and the reply that it does not survive.
use mathlib.Core.List.{Perm, reverse}
use bttracker.Common.{
  ℕ, zero, suc, ◌+◌, ◌^◌, ◌≤◌, ◌<◌, ◌≡◌, refl, sym, arith, Bool, inl, inr, Option, none, some, List,
  [], length, length-reverse, take, All, Option-cases,
}
use mathlib.Core.Path.{subst}
use bttracker.Memory.{Bytes}
use bttracker.Data.{Config, PeerAddr}
use bttracker.Platform.{Platform, World, Reply, ReplyType}
use bttracker.Platform.Laws.{HasMemory}
use bttracker.Exec.{done, fault, get_reply, null_pointer}
use bttracker.Redis.Effects.{reply_to, after, key_prefix-done, command-done}
use bttracker.Peers.{addr_of_reply, collect, draw_count, peers_of_reply, peer_list, shuffle}
use bttracker.Peers.Shuffles.{IsFair, shuffle-done}
use bttracker.Peers.Replies.{
  draw_count-le, draw_count_pos, is_array, all_keys, replies, IsPeerReply, addresses,
  length-addresses, length-replies, queued, answers, listed, append_gets-done, Collected,
  collect-done,
}

module _ (p : Platform) where
  module _ (memory : HasMemory p) where
    collect_from :
        (n : ℕ) (keys : List Bytes) (w : World p) (s : p.Redis)
        → w.redis ≡ s
        → All (IsPeerReply p) (replies p n (queued p keys s))
        → (collect p n [] 0 (record w { redis = queued p keys w.redis })).0
          ≡ done (listed p (replies p n (queued p keys s)))
    collect_from n keys w s e h =
        let start : 0 + length (addresses p (replies p n (queued p keys s)))
            ≡ length (addresses p (replies p n (queued p keys s))) =
          omega arith in
        rw (← start) (
          subst
            (λ t.
              Collected p memory n [] 0 (record w { redis = queued p keys w.redis })
                (queued p keys t))
            e
            (collect-done p memory n [] 0 (record w { redis = queued p keys w.redis })
              (subst (λ t. All (IsPeerReply p) (replies p n (queued p keys t))) (sym e) h)))

    -- What comes after the reply to KEYS, an array of keys.
    peers_of_array :
        (most : ℕ) (fair : IsFair p most) (r : Reply) (num_want peer_count : ℕ) (w : World p)
        → r.type ≡ ReplyType.array
        → length r.element ≤ most
        → length r.element < 2 ^ 31
        → num_want < 2 ^ 31
        → ((ys : List Bytes)
            → Perm r.element ys
            → All (IsPeerReply p) (answers p r num_want ys w.redis))
        → (ys : List Bytes) × Perm r.element ys
          × ((peers_of_reply p num_want peer_count (some r) w).0
              ≡ done (listed p (answers p r num_want ys w.redis)))
    unfolding peers_of_reply
    peers_of_array most fair r num_want peer_count w array drawable few small good =
        let k = draw_count (length r.element) num_want in
        let (wanted, there) = draw_count-le (length r.element) num_want few small in
        let (ys, drawn, perm, kept) =
          shuffle-done p most fair k 0 (length r.element) r.element w refl (omega arith) drawable
            few in
        (
          ys,
          perm,
          rw (is_array r array) (
              rw (drawn, append_gets-done p)
                (collect_from k (take k ys) (shuffle p k 0 (length r.element) r.element w).1 w.redis
                  kept (good ys perm))),
        )

    -- With memory, random numbers that stay within a range of as many keys, a key prefix, and fewer
    -- than 2 ^ 31 keys and wanted peers: where the keys come as an array, and the reply for each key that is drawn
    -- has the text of a peer or does not come, the list has the addresses of a draw of the keys,
    -- the last reply first; the count is the length of the list, and no more than were wanted.
    pub peer_list-done :
        (most : ℕ) (fair : IsFair p most) (config : Config) (prefix info_hash_str : Bytes)
        (num_want peer_count : ℕ) (seeder : Bool) (w : World p) (r : Reply)
        → config.redis_key_prefix ≡ some prefix
        → reply_to p (all_keys prefix info_hash_str seeder) w ≡ some r
        → r.type ≡ ReplyType.array
        → length r.element ≤ most
        → length r.element < 2 ^ 31
        → num_want < 2 ^ 31
        → ((ys : List Bytes)
            → Perm r.element ys
            → All
                (IsPeerReply p)
                (answers p r num_want ys (after p (all_keys prefix info_hash_str seeder) w).redis))
        → (ys : List Bytes) × (peers : List PeerAddr) × Perm r.element ys
          × (peers
              ≡ reverse (
                  addresses p (
                    answers p r num_want ys
                      (after p (all_keys prefix info_hash_str seeder) w).redis)))
          × ((peer_list p config info_hash_str num_want peer_count seeder w).0
              ≡ done (peers, length peers))
          × (length peers ≤ num_want)
    unfolding peer_list
    peer_list-done most fair config prefix info_hash_str num_want peer_count seeder w r has_prefix
          came array drawable few small good =
        let keys = all_keys prefix info_hash_str seeder in
        let (ys, perm, result) =
          peers_of_array most fair r num_want peer_count (after p keys w) array drawable few small
            good in
        let found = addresses p (answers p r num_want ys (after p keys w).redis) in
        (
          ys,
          reverse found,
          perm,
          refl,
          rw (length-reverse found) (
              rw (key_prefix-done p config prefix has_prefix w, command-done p keys w, came)
                result),
          omega (
            arith,
            length-reverse found,
            length-addresses p (answers p r num_want ys (after p keys w).redis),
            length-replies p (draw_count (length r.element) num_want) (
                queued p (take (draw_count (length r.element) num_want) ys) (after p keys w).redis),
            draw_count-le (length r.element) num_want few small,
          ),
        )

  -- A reply with no text, as for a key that expired after KEYS listed p it.
  abbrev pub IsNil : Option Reply → Type 0
  IsNil none = ⊥
  IsNil (some r) = r.str ≡ none

  collect_nil :
      (n : ℕ) (list : List PeerAddr) (count : ℕ) (w : World p)
      → 0 < n
      → IsNil (p.redis_get_reply w.redis).0
      → (collect p n list count w).0 ≡ fault null_pointer
  unfolding collect get_reply addr_of_reply
  collect_nil zero list count w h e = absurd (omega arith)
  collect_nil (suc n) list count w h e = elim (Option-cases (p.redis_get_reply w.redis).0) [
    | inl g ↦ absurd (subst IsNil g e)
    | inr (r, g) ↦ let empty : r.str ≡ none = subst IsNil g e in rw (g, addr_of_reply) (rw empty)
  ]

  collect_nil_from :
      (n : ℕ) (keys : List Bytes) (w : World p) (s : p.Redis)
      → w.redis ≡ s
      → 0 < n
      → IsNil (p.redis_get_reply (queued p keys s)).0
      → (collect p n [] 0 (record w { redis = queued p keys w.redis })).0 ≡ fault null_pointer
  collect_nil_from n keys w s e h nil =
      collect_nil n [] 0 (record w { redis = queued p keys w.redis }) h
        (subst (λ t. IsNil (p.redis_get_reply (queued p keys t)).0) (sym e) nil)

  -- With random numbers that stay within a range of as many keys, a key prefix, and fewer than
  -- 2 ^ 31 keys and wanted peers but one of each at least: where the first GET is answered without a text, whichever
  -- keys were drawn, the function reads through NULL.
  pub peer_list_nil :
      (most : ℕ) (fair : IsFair p most) (config : Config) (prefix info_hash_str : Bytes)
      (num_want peer_count : ℕ) (seeder : Bool) (w : World p) (r : Reply)
      → config.redis_key_prefix ≡ some prefix
      → reply_to p (all_keys prefix info_hash_str seeder) w ≡ some r
      → r.type ≡ ReplyType.array
      → length r.element ≤ most
      → length r.element < 2 ^ 31
      → num_want < 2 ^ 31
      → 0 < num_want
      → 0 < length r.element
      → ((ys : List Bytes)
          → Perm r.element ys
          → IsNil
              (p.redis_get_reply (
                queued p
                  (take (draw_count (length r.element) num_want) ys)
                  (after p (all_keys prefix info_hash_str seeder) w).redis)).0)
      → (peer_list p config info_hash_str num_want peer_count seeder w).0 ≡ fault null_pointer
  unfolding peer_list peers_of_reply
  peer_list_nil most fair config prefix info_hash_str num_want peer_count seeder w r has_prefix came
        array drawable few small some_want some_key nil =
      let keys = all_keys prefix info_hash_str seeder in
      let w1 = after p keys w in
      let k = draw_count (length r.element) num_want in
      let (wanted, there) = draw_count-le (length r.element) num_want few small in
      let (ys, drawn, perm, kept) =
        shuffle-done p most fair k 0 (length r.element) r.element w1 refl (omega arith) drawable
          few in
      rw (key_prefix-done p config prefix has_prefix w, command-done p keys w, came)
        (rw (is_array r array) (
          rw (drawn, append_gets-done p)
            (collect_nil_from k (take k ys) (shuffle p k 0 (length r.element) r.element w1).1
              w1.redis kept
              (draw_count_pos (length r.element) num_want few small some_want some_key)
              (nil ys perm))))
