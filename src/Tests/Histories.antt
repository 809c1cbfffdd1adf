-- ===== src/Tests/Histories.antt =====
-- Several requests, one after the other, on a server with a few keys.
use bttracker.Common.{ℕ, ◌≡◌, ◌≢◌, refl, arith, Bool, true, false, List, [], ◌∷◌, inl, All}
use bttracker.Data.{event_none, event_started}
use bttracker.Exec.{done}
use bttracker.Memory.{Bytes, IsByte}
use bttracker.Hex.{hex_digits}
use bttracker.Redis.{swarm_key, connection_key}
use bttracker.Redis.Keys.{swarm_key-injective}
use bttracker.Announce.{update_peer_list}
use bttracker.Announce.Isolation.{update_peer_list-isolated}
use bttracker.Handshake.{valid_request}
use bttracker.Handshake.Sessions.{valid_request_forged}
use bttracker.Scrape.{handle_scrape}
use bttracker.Scrape.Reference.{scrape_reference, handle_scrape-scrape_reference}
use bttracker.Announce.Histories.{
  Announcement, enroll_all, update_all, roster_in, update_all-enroll_all, update_all_both,
}
use bttracker.Announce.Orders.{own, update_all-reordered}
use bttracker.Text.{codes, str_eq, str_eq_refl, str_eq_sound}
use bttracker.Common.{Bool-cases, inl, inr, sym, ap, ◌∙◌, true, false, refl}
use bttracker.Tests.Hosts.{plain, steady}
use bttracker.Tests.Laws.{
  steady-HasMemory, steady-HasReplies, plain-HasMemory, plain-IsStore, plain-IsReadable,
}
use bttracker.Tests.Cases.{
  prefix, config, request_of, hash_text, announce_request, job_of, full_world, steady_world,
}

abbrev announcement : ℕ → Bool → Announcement
announcement event is_seeder = record {
  request = record announce_request { event = event };
  client_addr = 127 ∷ 0 ∷ 0 ∷ 1 ∷ [];
  is_seeder = is_seeder;
}

abbrev history : List Announcement
history = announcement 2 false ∷ announcement 1 true ∷ announcement 3 true ∷ []

update_all-enroll_all_example :
    ((update_all plain config hash_text history full_world).0 ≡ done tt)
    × (roster_in plain plain-HasMemory plain-IsStore config prefix refl
          (omega arith)
          (omega arith)
          hash_text
          (update_all plain config hash_text history full_world).1
        ≡ enroll_all history (
            roster_in plain plain-HasMemory plain-IsStore config prefix refl
              (omega arith)
              (omega arith)
              hash_text
              full_world))
update_all-enroll_all_example =
    update_all-enroll_all plain plain-HasMemory plain-IsStore config prefix refl (omega arith)
      (omega arith) hash_text history full_world

update_all_both_example :
    roster_in plain plain-HasMemory plain-IsStore config prefix refl
      (omega arith)
      (omega arith)
      hash_text
      (update_all plain config hash_text
        (announcement event_started false ∷ announcement event_none true ∷ [])
        full_world).1
      false
      announce_request.peer_id
    ≡ true
update_all_both_example =
    update_all_both plain plain-HasMemory plain-IsStore config prefix refl (omega arith)
      (omega arith) hash_text (announcement event_started false) (announcement event_none true)
      full_world refl refl refl refl refl false

handle_scrape-scrape_reference_example :
    handle_scrape steady (request_of 2) config (job_of 2).buff 56 steady_world
    ≡ scrape_reference steady steady-HasMemory steady-HasReplies config prefix refl
        (request_of 2)
        (job_of 2).buff
        56
        steady_world
handle_scrape-scrape_reference_example =
    handle_scrape-scrape_reference steady steady-HasMemory steady-HasReplies config prefix refl
      (request_of 2) (job_of 2).buff 56 steady_world

valid_request_forged_example :
    (valid_request plain config (request_of 1) 98 full_world).0 ≡ done true
valid_request_forged_example =
    valid_request_forged plain plain-IsStore plain-IsReadable config prefix refl (request_of 1) 98
      full_world (inl (refl, omega arith))

abbrev one_hash : Bytes
one_hash = 171 ∷ 1 ∷ []

abbrev other_hash : Bytes
other_hash = 171 ∷ 2 ∷ []

one_hash-bytes : All IsByte one_hash
one_hash-bytes = (omega arith, (omega arith, tt))

other_hash-bytes : All IsByte other_hash
other_hash-bytes = (omega arith, (omega arith, tt))

hashes_differ : one_hash ≢ other_hash
hashes_differ e = cc

update_peer_list-isolated_example :
    ((k : Bool) (peer_id : Bytes)
      → plain-IsStore.value
          (update_peer_list plain config announce_request
            (127 ∷ 0 ∷ 0 ∷ 1 ∷ [])
            (hex_digits one_hash)
            false
            full_world).1.redis
          (swarm_key prefix (hex_digits other_hash) k peer_id)
        ≡ plain-IsStore.value full_world.redis (swarm_key prefix (hex_digits other_hash) k peer_id))
    × ((id : ℕ)
        → plain-IsStore.value
            (update_peer_list plain config announce_request
              (127 ∷ 0 ∷ 0 ∷ 1 ∷ [])
              (hex_digits one_hash)
              false
              full_world).1.redis
            (connection_key plain prefix id)
          ≡ plain-IsStore.value full_world.redis (connection_key plain prefix id))
update_peer_list-isolated_example =
    update_peer_list-isolated plain plain-HasMemory plain-IsStore config prefix refl (omega arith)
      (omega arith) announce_request (127 ∷ 0 ∷ 0 ∷ 1 ∷ []) one_hash false full_world other_hash
      one_hash-bytes other_hash-bytes refl hashes_differ

swarm_key-injective_example :
    (one_hash ≡ one_hash) × (true ≡ true) × (announce_request.peer_id ≡ announce_request.peer_id)
swarm_key-injective_example =
    swarm_key-injective prefix one_hash one_hash true true announce_request.peer_id
      announce_request.peer_id one_hash-bytes one_hash-bytes refl refl

abbrev stranger : Announcement
stranger = record {
  request = record announce_request {
    event = event_started;
    peer_id = codes "-XX0001-000000000002";
  };
  client_addr = 127 ∷ 0 ∷ 0 ∷ 2 ∷ [];
  is_seeder = true;
}

strangers_apart : str_eq announce_request.peer_id stranger.request.peer_id ≡ false
unfolding str_eq
strangers_apart = refl

strangers_differ : announce_request.peer_id ≢ stranger.request.peer_id
strangers_differ e =
    let clash : true ≡ false =
      sym (str_eq_refl announce_request.peer_id)
      ∙ (ap (str_eq announce_request.peer_id) e ∙ strangers_apart) in
    absurd cc

own-swap :
    (peer_id : Bytes)
    → own peer_id (announcement 2 false ∷ stranger ∷ [])
      ≡ own peer_id (stranger ∷ announcement 2 false ∷ [])
own-swap peer_id = elim (Bool-cases (str_eq announce_request.peer_id peer_id)) [
  | inr other ↦ rw other
  | inl same ↦ elim (Bool-cases (str_eq stranger.request.peer_id peer_id)) [
    | inr other ↦ rw (same, other)
    | inl same' ↦ absurd (
        strangers_differ (
          str_eq_sound announce_request.peer_id peer_id same
          ∙ sym (str_eq_sound stranger.request.peer_id peer_id same')))
  ]
]

update_all-reordered_example :
    roster_in plain plain-HasMemory plain-IsStore config prefix refl
      (omega arith)
      (omega arith)
      hash_text
      (update_all plain config hash_text (announcement 2 false ∷ stranger ∷ []) full_world).1
    ≡ roster_in plain plain-HasMemory plain-IsStore config prefix refl
        (omega arith)
        (omega arith)
        hash_text
        (update_all plain config hash_text (stranger ∷ announcement 2 false ∷ []) full_world).1
update_all-reordered_example =
    update_all-reordered plain plain-HasMemory plain-IsStore config prefix refl (omega arith)
      (omega arith) hash_text (announcement 2 false ∷ stranger ∷ [])
      (stranger ∷ announcement 2 false ∷ []) full_world own-swap
