-- ===== src/Announce/Orders.antt =====
-- Announcements of different peers in any order.
use mathlib.Core.Path.{fun_ext, subst}
use bttracker.Common.{
  ℕ, ◌^◌, ◌<◌, ◌≡◌, refl, sym, ap, ◌∙◌, Bool, true, false, ◌&&◌, ◌||◌, List, [], ◌∷◌, ◌==◌,
  if◌then◌else◌, Bool-cases, inl, inr, some,
}
use bttracker.Memory.{Bytes}
use bttracker.Text.{str_eq, str_eq_sound}
use bttracker.Data.{Config, event_none, event_completed, event_started, event_stopped}
use bttracker.Platform.{Platform, World}
use bttracker.Platform.Laws.{HasMemory}
use bttracker.Platform.Stores.{IsStore}
use bttracker.Announce.Updates.{same_kind}
use bttracker.Announce.Histories.{
  Roster, enter, enroll, Announcement, enroll_all, update_all, roster_in, update_all-enroll_all,
}

-- The announcements of one peer, in their order.
abbrev pub own : Bytes → List Announcement → List Announcement
own peer_id [] = []
own peer_id (a ∷ more) =
    let rest = own peer_id more in if str_eq a.request.peer_id peer_id then a ∷ rest else rest

-- Two rosters have the same of one peer.
abbrev Agree : Roster → Roster → Bytes → Type 0
Agree r r' j = (c : Bool) → r c j ≡ r' c j

enter-other :
    (r : Roster) (kind : Bool) (id : Bytes) (there c : Bool) (j : Bytes)
    → str_eq id j ≡ false
    → enter r kind id there c j ≡ r c j
enter-other r kind id there c j e = elim (Bool-cases (same_kind kind c)) [
  | inl k ↦ rw (k, e)
  | inr k ↦ rw k
]

-- An event of another peer changes nothing.
enroll-other :
    (event : ℕ) (r : Roster) (is_seeder : Bool) (id j : Bytes)
    → str_eq id j ≡ false
    → Agree (enroll event r is_seeder id) r j
enroll-other event r is_seeder id j e c = elim (Bool-cases (event == event_stopped)) [
  | inl stopped ↦ rw stopped (enter-other r is_seeder id false c j e)
  | inr running ↦ elim (Bool-cases (event == event_completed)) [
    | inl completed ↦ elim (Bool-cases (r false id)) [
      | inl leeches ↦
          rw (running, completed, leeches)
            (enter-other (enter r false id false) true id true c j e
              ∙ enter-other r false id false c j e)
      | inr absent ↦ rw (running, completed, absent)
    ]
    | inr partial ↦ elim (Bool-cases (event == event_none || event == event_started)) [
      | inl known ↦ rw (running, partial, known) (enter-other r is_seeder id true c j e)
      | inr unknown ↦ rw (running, partial, unknown)
    ]
  ]
]

enter-same :
    (r r' : Roster) (kind : Bool) (id : Bytes) (there : Bool)
    → Agree r r' id
    → Agree (enter r kind id there) (enter r' kind id there) id
enter-same r r' kind id there h c =
    ap (λ before. if same_kind kind c && str_eq id id then there else before) (h c)

-- An event of a peer does the same to what two rosters have alike.
enroll-same :
    (event : ℕ) (r r' : Roster) (is_seeder : Bool) (id : Bytes)
    → Agree r r' id
    → Agree (enroll event r is_seeder id) (enroll event r' is_seeder id) id
enroll-same event r r' is_seeder id h c = elim (Bool-cases (event == event_stopped)) [
  | inl stopped ↦ rw stopped (enter-same r r' is_seeder id false h c)
  | inr running ↦ elim (Bool-cases (event == event_completed)) [
    | inl completed ↦ elim (Bool-cases (r' false id)) [
      | inl leeches ↦
          let leeches' : r false id ≡ true = h false ∙ leeches in
          rw (running, completed, leeches, leeches')
            (enter-same (enter r false id false) (enter r' false id false) true id true
              (enter-same r r' false id false h) c)
      | inr absent ↦
          let absent' : r false id ≡ false = h false ∙ absent in
          rw (running, completed, absent, absent') (h c)
    ]
    | inr partial ↦ elim (Bool-cases (event == event_none || event == event_started)) [
      | inl known ↦ rw (running, partial, known) (enter-same r r' is_seeder id true h c)
      | inr unknown ↦ rw (running, partial, unknown) (h c)
    ]
  ]
]

enroll_all-own :
    (history : List Announcement) (r r' : Roster) (j : Bytes)
    → Agree r r' j
    → Agree (enroll_all history r) (enroll_all (own j history) r') j
enroll_all-own [] r r' j h = h
enroll_all-own (a ∷ more) r r' j h = elim (Bool-cases (str_eq a.request.peer_id j)) [
  | inl same ↦
      let j_is : a.request.peer_id ≡ j = str_eq_sound a.request.peer_id j same in
      rw same (
        enroll_all-own more _ _ j (
          subst
            (Agree (enroll a.request.event r a.is_seeder a.request.peer_id)
              (enroll a.request.event r' a.is_seeder a.request.peer_id))
            j_is
            (enroll-same a.request.event r r' a.is_seeder a.request.peer_id
              (subst (Agree r r') (sym j_is) h))))
  | inr other ↦ rw other (
      enroll_all-own more _ r' j
        (λ c. enroll-other a.request.event r a.is_seeder a.request.peer_id j other c ∙ h c))
]

module _ (p : Platform) (memory : HasMemory p) (store : IsStore p) (config : Config)
    (prefix : Bytes) (has_prefix : config.redis_key_prefix ≡ some prefix)
    (positive : 0 < config.announce_peer_ttl) (bounded : config.announce_peer_ttl < 2 ^ 31)
    (hash : Bytes) where
  -- With memory, a store that behaves as documented, a key prefix and a time to live that is
  -- positive and below 2 ^ 31: two histories of announcements of a torrent, in which no time to live
  -- has run out and every peer has the same announcements in the same order, leave the same seeders
  -- and the same leechers in the store, in whatever order the announcements of different peers stand.
  pub update_all-reordered :
      (history history' : List Announcement) (w : World p)
      → ((peer_id : Bytes) → own peer_id history ≡ own peer_id history')
      → roster_in p memory store config prefix has_prefix positive bounded hash
          (update_all p config hash history w).1
        ≡ roster_in p memory store config prefix has_prefix positive bounded hash
            (update_all p config hash history' w).1
  update_all-reordered history history' w same =
      let roster = roster_in p memory store config prefix has_prefix positive bounded hash w in
      let left =
        update_all-enroll_all p memory store config prefix has_prefix positive bounded hash history
          w in
      let right =
        update_all-enroll_all p memory store config prefix has_prefix positive bounded hash history'
          w in
      left.1
      ∙ (fun_ext (λ c. fun_ext (λ j.
            enroll_all-own history roster roster j (λ k. refl) c
            ∙ (ap (λ own_steps. enroll_all own_steps roster c j) (same j)
                ∙ sym (enroll_all-own history' roster roster j (λ k. refl) c))))
          ∙ sym right.1)
