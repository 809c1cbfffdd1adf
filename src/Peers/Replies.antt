-- ===== src/Peers/Replies.antt =====
-- `bt_peer_list`: how many keys it draws, and what it makes of the replies to its GETs.
use mathlib.Core.List.{reverse, reverse_aux}
use bttracker.Common.{
  ℕ, zero, suc, ◌+◌, ◌^◌, ◌≤◌, ◌<◌, ◌≡◌, refl, sym, ap, arith, Bool, true, inl, inr, Option, none,
  some, List, [], ◌∷◌, ◌++◌, length, length-append, take, All, Option-cases,
}
use mathlib.Core.Path.{subst}
use bttracker.Memory.{Bytes, size_of_int32}
use bttracker.Text.{codes}
use bttracker.Data.{PeerAddr}
use bttracker.Platform.{Platform, World, Reply, ReplyType}
use bttracker.Platform.Laws.{HasMemory}
use bttracker.Exec.{done, get_reply, append_command}
use bttracker.Exec.Runs.{malloc_unchecked-done, redis-malloc_unchecked}
use bttracker.Redis.{swarm_key, is_type}
use bttracker.Peers.{read_peer_addr, new_peer_addr, addr_of_reply, append_gets, collect, draw_count}

-- No more keys are drawn than are wanted, or than there are.
pub draw_count-le :
    (total num_want : ℕ)
    → total < 2 ^ 31
    → num_want < 2 ^ 31
    → (draw_count total num_want ≤ num_want) × (draw_count total num_want ≤ total)
unfolding draw_count size_of_int32
draw_count-le total num_want h k = (ground arith, ground arith)

pub draw_count_pos :
    (total num_want : ℕ)
    → total < 2 ^ 31
    → num_want < 2 ^ 31
    → 0 < num_want
    → 0 < total
    → 0 < draw_count total num_want
unfolding draw_count size_of_int32
draw_count_pos total num_want h k a b = ground arith

abbrev pub to_list : Option PeerAddr → List PeerAddr
to_list none = []
to_list (some a) = a ∷ []

pub length-to_list : (o : Option PeerAddr) → length (to_list o) ≤ 1
length-to_list none = omega arith
length-to_list (some a) = omega arith

pub is_array : (r : Reply) → r.type ≡ ReplyType.array → is_type ReplyType.array r ≡ true
is_array r h = ground arith

-- The command that asks for all keys of one kind.
abbrev pub all_keys : Bytes → Bytes → Bool → List Bytes
all_keys prefix info_hash_str seeder =
    codes "KEYS" ∷ swarm_key prefix info_hash_str seeder (codes "*") ∷ []

module _ (p : Platform) where
  -- The next replies, in order.
  abbrev pub replies : ℕ → p.Redis → List (Option Reply)
  replies zero s = []
  replies (suc n) s = (p.redis_get_reply s).0 ∷ replies n (p.redis_get_reply s).1

  -- A reply that fails to come, or the text of a peer.
  abbrev pub IsPeerReply : Option Reply → Type 0
  IsPeerReply none = Unit
  IsPeerReply (some r) =
      (str : Bytes) × (a : PeerAddr) × (r.str ≡ some str) × (read_peer_addr p str ≡ some a)

  -- The address that a reply carries.
  abbrev pub text_addr : Option Bytes → List PeerAddr
  text_addr none = []
  text_addr (some str) = to_list (read_peer_addr p str)

  abbrev pub addr_of : Option Reply → List PeerAddr
  addr_of none = []
  addr_of (some r) = text_addr r.str

  abbrev pub addresses : List (Option Reply) → List PeerAddr
  addresses [] = []
  addresses (o ∷ os) = addr_of o ++ addresses os

  pub length-text_addr : (o : Option Bytes) → length (text_addr o) ≤ 1
  length-text_addr none = omega arith
  length-text_addr (some str) = length-to_list (read_peer_addr p str)

  pub length-addresses : (os : List (Option Reply)) → length (addresses os) ≤ length os
  length-addresses [] = omega arith
  length-addresses (none ∷ os) = omega (arith, length-addresses os)
  length-addresses (some r ∷ os) = omega (
    arith,
    length-append (text_addr r.str) (addresses os),
    length-text_addr r.str,
    length-addresses os,
  )

  pub length-replies : (n : ℕ) (s : p.Redis) → length (replies n s) ≡ n
  length-replies zero s = refl
  length-replies (suc n) s = ap suc (length-replies n (p.redis_get_reply s).1)

  -- The store after a GET for each key was queued.
  abbrev pub queued : List Bytes → p.Redis → p.Redis
  queued [] s = s
  queued (key ∷ keys) s = queued keys (p.redis_append_command (codes "GET" ∷ key ∷ []) s)

  -- The replies to the GETs, when the keys stand in the order `ys`.
  abbrev pub answers : Reply → ℕ → List Bytes → p.Redis → List (Option Reply)
  answers r num_want ys s =
      let k = draw_count (length r.element) num_want in replies k (queued (take k ys) s)

  -- The list that the replies make, and its count.
  abbrev pub listed : List (Option Reply) → List PeerAddr × ℕ
  listed os = (reverse (addresses os), length (addresses os))

  pub append_gets-done :
      (keys : List Bytes) (w : World p)
      → append_gets p keys w ≡ (done tt, record w { redis = queued keys w.redis })
  unfolding append_gets append_command
  append_gets-done [] w = refl
  append_gets-done (key ∷ keys) w = append_gets-done keys _

  module _ (memory : HasMemory p) where
    addr_of_reply-done :
        (r : Reply) (str : Bytes) (a : PeerAddr) (w : World p)
        → r.str ≡ some str
        → read_peer_addr p str ≡ some a
        → ((addr_of_reply p r w).0 ≡ done a)
          × ((addr_of_reply p r w).1.redis ≡ w.redis)
          × (addr_of (some r) ≡ a ∷ [])
    unfolding addr_of_reply new_peer_addr
    addr_of_reply-done r str a w e f = (
      rw (e, addr_of_reply) (rw f (rw (malloc_unchecked-done p 8 w memory))),
      rw (e, addr_of_reply)
          (rw f (rw (malloc_unchecked-done p 8 w memory) (redis-malloc_unchecked p 8 w))),
      rw (e, text_addr) (rw f),
    )

    abbrev next : World p → World p
    next w = record w { redis = (p.redis_get_reply w.redis).1 }

    abbrev pub Collected : ℕ → List PeerAddr → ℕ → World p → p.Redis → Type 0
    Collected n list count w s =
        (collect p n list count w).0
        ≡ done
            (reverse_aux (addresses (replies n s)) list, count + length (addresses (replies n s)))

    collect_more :
        (n : ℕ) (a : PeerAddr) (list : List PeerAddr) (count : ℕ) (w : World p) (s : p.Redis)
        → w.redis ≡ s
        → All IsPeerReply (replies n s)
        → (All IsPeerReply (replies n w.redis) → Collected n (a ∷ list) (count + 1) w w.redis)
        → (collect p n (a ∷ list) (count + 1) w).0
          ≡ done (
            reverse_aux (addresses (replies n s)) (a ∷ list),
            count + suc (length (addresses (replies n s))),
          )
    collect_more n a list count w s e h ih =
        let counted : count + suc (length (addresses (replies n s)))
            ≡ count + 1 + length (addresses (replies n s)) =
          omega arith in
        rw counted (
          subst (λ t. Collected n (a ∷ list) (count + 1) w t) e
            (ih (subst (λ t. All IsPeerReply (replies n t)) (sym e) h)))

    -- The loop puts the addresses in front of the list, the last one first, and counts them.
    pub collect-done :
        (n : ℕ) (list : List PeerAddr) (count : ℕ) (w : World p)
        → All IsPeerReply (replies n w.redis)
        → (collect p n list count w).0
          ≡ done (
            reverse_aux (addresses (replies n w.redis)) list,
            count + length (addresses (replies n w.redis)),
          )
    unfolding collect get_reply
    collect-done zero list count w h = let same : count + 0 ≡ count = omega arith in rw same
    collect-done (suc n) list count w h = elim (Option-cases (p.redis_get_reply w.redis).0) [
      | inl e ↦ rw e (collect-done n list count (next w) h.1)
      | inr (r, e) ↦
          let (str, a, text, decoded) = subst IsPeerReply e h.0 in
          let (addr, kept, one) = addr_of_reply-done r str a (next w) text decoded in
          rw (e, addr, one)
            (collect_more n a list count (addr_of_reply p r (next w)).1
              (p.redis_get_reply w.redis).1 kept h.1
              (collect-done n (a ∷ list) (count + 1) (addr_of_reply p r (next w)).1))
    ]
