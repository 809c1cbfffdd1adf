-- ===== src/Tests/Storage.antt =====
-- The functions on Redis, on a server with a few keys.
use mathlib.Core.List.{Perm, reverse}
use bttracker.Common.{
  ◌-◌, ◌^◌, ◌≤◌, ◌≡◌, refl, arith, Bool, true, false, some, List, [], ◌∷◌, length, All,
}
use bttracker.Memory.{Bytes, hton, load, size_of_int32, is_negative32}
use bttracker.Text.{str_eq}
use bttracker.Data.{PeerAddr, whitelist}
use bttracker.Exec.{done, fault, out_of_bounds}
use bttracker.Platform.{established}
use bttracker.Random.{scale}
use bttracker.Redis.{info_hash_blacklisted}
use bttracker.Redis.Effects.{reply_to, after}
use bttracker.Redis.Lists.{blacklisted-verdict, is_member, IsMembership}
use bttracker.Peers.{peer_object, peer_of_request, peer_list, shuffle, read_peer_addr, draw_count}
use bttracker.Peers.Objects.{read_peer_addr-peer_object}
use bttracker.Peers.Fairness.{randr-IsFair, shuffle_top}
use bttracker.Tests.Arithmetic.{fixed-IsIeee, fixed-IsDyadic}
use bttracker.Peers.Shuffles.{IsFair}
use bttracker.Peers.Lists.{peer_list-done}
use bttracker.Peers.Replies.{IsPeerReply, answers, addresses, all_keys}
use bttracker.Announce.{update_peer_list}
use bttracker.Announce.Updates.{announce, swarm_of, update_peer_list-announce}
use bttracker.Tests.Hosts.{plain, forgetful, listing, host, zeros}
use bttracker.Tests.Laws.{plain-HasMemory, plain-IsFair, plain-IsStore}
use bttracker.Tests.Cases.{
  prefix, config, config_of, hash_text, announce_request, peer, full_db, full_world,
  forgetful_world, key_listing,
}

update_peer_list-announce_example :
    ((update_peer_list plain config announce_request
        (127 ∷ 0 ∷ 0 ∷ 1 ∷ [])
        hash_text
        false
        full_world).0
      ≡ done tt)
    × ((c : Bool) (j : Bytes)
        → swarm_of
            (plain-IsStore.value
              (update_peer_list plain config announce_request
                (127 ∷ 0 ∷ 0 ∷ 1 ∷ [])
                hash_text
                false
                full_world).1.redis)
            prefix
            hash_text
            c
            j
          ≡ announce 2
              (swarm_of (plain-IsStore.value full_db) prefix hash_text)
              false
              announce_request.peer_id
              (peer_object plain (zeros 40) (
                peer_of_request announce_request
                  (hton plain.endian 4 (load plain.endian (127 ∷ 0 ∷ 0 ∷ 1 ∷ [])))))
              c
              j)
update_peer_list-announce_example =
    update_peer_list-announce plain plain-HasMemory plain-IsStore config prefix refl (omega arith)
      (omega arith) announce_request (127 ∷ 0 ∷ 0 ∷ 1 ∷ []) hash_text false full_world

-- Whatever the order of the keys, both replies have a peer.
full_replies :
    (ys : List Bytes)
    → All (IsPeerReply plain) (
        answers plain key_listing 2 ys
          (after plain (all_keys prefix hash_text true) full_world).redis)
unfolding str_eq draw_count size_of_int32 is_negative32 read_peer_addr
full_replies [] = (tt, (tt, tt))
full_replies (k ∷ []) = ((zeros 40, _, refl, refl), (tt, tt))
full_replies (k ∷ l ∷ ys) = ((zeros 40, _, refl, refl), ((zeros 40, _, refl, refl), tt))

keys_listed : reply_to plain (all_keys prefix hash_text true) full_world ≡ some key_listing
unfolding str_eq
keys_listed = refl

forgetful_lists :
    reply_to forgetful (all_keys prefix hash_text true) forgetful_world ≡ some key_listing
unfolding str_eq
forgetful_lists = refl

peer_list-done_example :
    (ys : List Bytes) × (found : List PeerAddr) × Perm listing ys
    × (found
        ≡ reverse (
            addresses plain (
              answers plain key_listing 2 ys
                (after plain (all_keys prefix hash_text true) full_world).redis)))
    × ((peer_list plain config hash_text 2 0 true full_world).0 ≡ done (found, length found))
    × (length found ≤ 2)
peer_list-done_example =
    peer_list-done plain plain-HasMemory 3 (plain-IsFair 3) config prefix hash_text 2 0 true
      full_world key_listing refl keys_listed refl (omega arith) (omega arith) (omega arith)
      (λ ys perm. full_replies ys)

randr-IsFair_example : IsFair plain (2 ^ 22 - 1)
randr-IsFair_example =
    randr-IsFair plain fixed-IsIeee fixed-IsDyadic (omega arith) (omega arith) (λ g. omega arith)

top_draw : scale (host (2 ^ 31 - 1) 1000 established).double (2 ^ 31 - 1) (2 ^ 31 - 1) 0 2 ≡ 3
unfolding scale
top_draw = refl

shuffle_top_example :
    (shuffle
      (host (2 ^ 31 - 1) 1000 established)
      2
      0
      3
      listing
      (record { redis = full_db; heap = 0; rng = 0 })).0
    ≡ fault out_of_bounds
shuffle_top_example =
    shuffle_top (host (2 ^ 31 - 1) 1000 established) fixed-IsIeee (omega arith) (omega arith) 1 0
      listing (record { redis = full_db; heap = 0; rng = 0 }) (omega arith) (omega arith) refl

read_peer_addr-peer_object_example :
    read_peer_addr plain (peer_object plain (zeros 40) peer)
    ≡ some (record { ipv4_addr = 0x7f000001; port = 6881 })
read_peer_addr-peer_object_example =
    read_peer_addr-peer_object plain (zeros 40) peer refl (omega arith) (omega arith)

-- The server has the hash in its list.
membership :
    IsMembership
      (reply_to plain
        (is_member plain (config_of whitelist) prefix refl hash_text full_world whitelist)
        full_world)
      true
unfolding str_eq
membership = (refl, refl)

blacklisted-verdict_example :
    (info_hash_blacklisted plain (config_of whitelist) hash_text full_world).0 ≡ done false
blacklisted-verdict_example =
    blacklisted-verdict plain (config_of whitelist) prefix refl hash_text full_world whitelist true
      refl (λ restricted. membership)
