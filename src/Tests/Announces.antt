-- ===== src/Tests/Announces.antt =====
-- An announce from the datagram to the response, on a server that lists three peers.
use bttracker.Common.{
  ℕ, zero, suc, ◌+◌, ◌-◌, ◌^◌, ◌≤◌, ◌<◌, ◌≡◌, refl, arith, Bool, true, false, not, some, List, [],
  ◌∷◌, ◌++◌, length, All, inl, inr, ◌==◌,
}
use bttracker.Memory.{Bytes}
use bttracker.Text.{str_eq}
use bttracker.Data.{Config, PeerAddr, blacklist, unrestricted, action_error}
use bttracker.Exec.{done}
use bttracker.Net.{read_announce_request_data}
use bttracker.Net.Fields.{to_packet}
use bttracker.Net.Responses.{error_fields}
use bttracker.Platform.{World}
use bttracker.Redis.Effects.{reply_to}
use bttracker.Redis.Lists.{blacklisted-verdict, is_member, IsMembership}
use bttracker.Peers.{peer_list, read_peer_addr}
use bttracker.Peers.Lists.{peer_list-done}
use bttracker.Peers.Replies.{all_keys, replies, IsPeerReply}
use bttracker.Platform.{Reply}
use bttracker.Handshake.{valid_request}
use bttracker.Handshake.Accepts.{valid_request_iff}
use bttracker.Scrape.{blacklisted_text}
use bttracker.Announce.{clamp_num_want, gather_peers, handle_announce}
use bttracker.Announce.Wanted.{clamp_num_want-le}
use bttracker.Announce.Gathers.{gather_peers-done}
use bttracker.Announce.Answers.{
  handle_announce-answer, handle_announce_refused, announce_answer, announced_text, checked,
  allowed, updated, counts,
}
use bttracker.Platform.{Platform}
use bttracker.Common.{inl, inr, none, ltb, drop, if◌then◌else◌}
use bttracker.Tests.Hosts.{plain, steady, zeros}
use bttracker.Tests.Laws.{steady-HasMemory, plain-IsFair, steady-IsStore, steady-HasReplies}
use bttracker.Tests.Cases.{
  prefix, config, config_of, request_of, hash_text, announce_packet, steady_world, key_listing,
  full_world,
}

abbrev client : Bytes
client = 127 ∷ 0 ∷ 0 ∷ 1 ∷ []

replies-IsPeerReply : (n : ℕ) (s : steady.Redis) → All (IsPeerReply steady) (replies steady n s)
unfolding read_peer_addr
replies-IsPeerReply zero s = tt
replies-IsPeerReply (suc n) s = ((zeros 40, _, refl, refl), replies-IsPeerReply n s)

keys_come :
    (seeder : Bool) (hash : Bytes) (w : World steady)
    → reply_to steady (all_keys prefix hash seeder) w ≡ some key_listing
unfolding str_eq
keys_come seeder hash w = refl

-- A list of peers can be got at any time.
found_peers :
    (hash : Bytes) (n : ℕ) (seeder : Bool) (w : World steady)
    → n < 2 ^ 31
    → (peers : List PeerAddr) × ((peer_list steady config hash n 0 seeder w).0
        ≡ done (peers, length peers))
      × (length peers ≤ n)
found_peers hash n seeder w b =
    let (ys, peers, perm, listed, ends, few) =
      peer_list-done steady steady-HasMemory 3 (plain-IsFair 3) config prefix hash n 0 seeder w
        key_listing refl (keys_come seeder hash w) refl (omega arith) (omega arith) b
        (λ ys perm. replies-IsPeerReply _ _) in
    (peers, ends, few)

found_all :
    (hash : Bytes) (n : ℕ) (seeder : Bool) (w : World steady)
    → n < 2 ^ 31
    → (peers : List PeerAddr) × ((gather_peers steady config hash n seeder w).0
        ≡ done (peers, length peers))
found_all hash n seeder w b =
    let (others, first, few) = found_peers hash n (not seeder) w b in
    let (siblings, second, fit) =
      found_peers hash (n - length others) seeder
        (peer_list steady config hash n 0 (not seeder) w).1 (omega arith) in
    let (peers, form, ends, bound) =
      gather_peers-done steady config hash n seeder w others siblings first few second fit in
    (peers, ends)

first_list :
    (peers : List PeerAddr) × ((peer_list steady config hash_text 5 0 true steady_world).0
      ≡ done (peers, length peers))
    × (length peers ≤ 5)
first_list = found_peers hash_text 5 true steady_world (omega arith)

second_list :
    (peers : List PeerAddr) × ((peer_list steady config hash_text
        (5 - length first_list.0)
        0
        false
        (peer_list steady config hash_text 5 0 true steady_world).1).0
      ≡ done (peers, length peers))
    × (length peers ≤ 5 - length first_list.0)
second_list =
    found_peers hash_text (5 - length first_list.0) false
      (peer_list steady config hash_text 5 0 true steady_world).1 (omega arith)

announce_accepted :
    (r : Config)
    → r.redis_key_prefix ≡ some prefix
    → (valid_request steady r (request_of 1) 98 steady_world).0 ≡ done true
unfolding str_eq
announce_accepted r e =
    (valid_request_iff steady r prefix e (request_of 1) 98 steady_world).1
      (inr (inl (refl, omega arith, (_, refl, λ e. cc))))

listed_everywhere :
    (hash : Bytes) (w : World steady)
    → IsMembership
        (reply_to steady (is_member steady (config_of blacklist) prefix refl hash w blacklist) w)
        true
unfolding str_eq
listed_everywhere hash w = (refl, refl)

handle_announce_refused_example :
    (junk : Bytes) × (length junk ≡ 56)
    × ((handle_announce steady
          (request_of 1)
          (config_of blacklist)
          announce_packet
          98
          client
          steady_world).0
        ≡ done (
            some (record {
              length = 64 + length blacklisted_text;
              data_bytes =
                  to_packet (
                    error_fields (record (request_of 1) { action = action_error }) blacklisted_text)
                  ++ junk;
            })))
    × ((handle_announce steady
          (request_of 1)
          (config_of blacklist)
          announce_packet
          98
          client
          steady_world).1.redis
        ≡ (allowed steady steady-HasMemory
            (config_of blacklist)
            (request_of 1)
            announce_packet
            98
            steady_world).redis)
handle_announce_refused_example =
    handle_announce_refused steady steady-HasMemory (config_of blacklist) (request_of 1)
      announce_packet 98 client steady_world (announce_accepted (config_of blacklist) refl)
      (blacklisted-verdict steady (config_of blacklist) prefix refl
        (announced_text steady steady-HasMemory (config_of blacklist) (request_of 1)
          announce_packet)
        (checked steady steady-HasMemory (config_of blacklist) (request_of 1) announce_packet 98
          steady_world)
        blacklist true refl
        (λ restricted.
          listed_everywhere
            (announced_text steady steady-HasMemory (config_of blacklist) (request_of 1)
              announce_packet)
            (checked steady steady-HasMemory (config_of blacklist) (request_of 1) announce_packet 98
              steady_world)))

gathered :
    (peers : List PeerAddr) × ((gather_peers steady config
        (announced_text steady steady-HasMemory config (request_of 1) announce_packet)
        (clamp_num_want
          (read_announce_request_data steady.target steady.endian announce_packet).num_want
          80)
        ((read_announce_request_data steady.target steady.endian announce_packet).left == 0)
        (updated steady steady-HasMemory steady-IsStore config prefix refl
          (omega arith)
          (omega arith)
          (request_of 1)
          (read_announce_request_data steady.target steady.endian announce_packet)
          client
          (announced_text steady steady-HasMemory config (request_of 1) announce_packet)
          (allowed steady steady-HasMemory config
            (request_of 1)
            announce_packet
            98
            steady_world))).0
      ≡ done (peers, length peers))
gathered = found_all _ _ _ _ (
    omega (
      arith,
      clamp_num_want-le
          (read_announce_request_data steady.target steady.endian announce_packet).num_want 80,
    ))

abbrev no_keys : Reply
no_keys = steady-HasReplies.reply steady_world.redis

handle_announce-answer_example :
    (handle_announce steady (request_of 1) config announce_packet 98 client steady_world).0
    ≡ done (
        some (
          announce_answer steady steady-HasMemory steady-IsStore config prefix refl
            (omega arith)
            (omega arith)
            (request_of 1)
            (counts steady steady-HasMemory steady-IsStore config prefix refl
              (omega arith)
              (omega arith)
              (request_of 1)
              no_keys
              no_keys
              no_keys)
            gathered.0))
handle_announce-answer_example =
    handle_announce-answer steady steady-HasMemory steady-IsStore config prefix refl (omega arith)
      (omega arith) (request_of 1) announce_packet 98 client gathered.0 no_keys no_keys no_keys
      steady_world (announce_accepted config refl)
      (blacklisted-verdict steady config prefix refl _ _ unrestricted false refl
        (λ restricted. absurd (restricted refl)))
      gathered.1 (refl, refl, refl)

-- A host that loses its connection after the first of three replies.
abbrev losing : Platform
losing = record plain {
  redis_get_reply = λ s. (
    if ltb 2 (length s.pending) then some no_keys else none,
    record s { pending = drop 1 s.pending },
  );
}

abbrev losing_world : World losing
losing_world = record { redis = full_world.redis; heap = 0; rng = 0 }
