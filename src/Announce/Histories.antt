-- ===== src/Announce/Histories.antt =====
-- A history of announcements of one torrent against an abstract roster: who seeds and who leeches,
-- without what is stored for a peer.
use mathlib.Core.Path.{fun_ext}
use bttracker.Common.{
  ℕ, ◌^◌, ◌<◌, ◌≡◌, refl, ap, ◌∙◌, Bool, true, false, ◌&&◌, ◌||◌, Option, none, some, List, [], ◌∷◌,
  ◌==◌, if◌then◌else◌, Bool-cases, inl, inr,
}
use bttracker.Memory.{Bytes}
use bttracker.Text.{str_eq_refl, str_eq}
use bttracker.Data.{
  Config, AnnounceRequest, event_none, event_completed, event_started, event_stopped,
}
use bttracker.Platform.{Platform, World}
use bttracker.Platform.Laws.{HasMemory}
use bttracker.Platform.Stores.{IsStore}
use bttracker.Exec.{M, ◌>>◌, pure, done}
use bttracker.Announce.{update_peer_list}
use bttracker.Announce.Updates.{
  Swarm, same_kind, put, promote, announce, swarm_of, update_peer_list-announce,
}

-- Who seeds (`true`) and who leeches.
abbrev pub Roster : Type 0
Roster = Bool → Bytes → Bool

abbrev pub is_present : {A : Type 0} → Option A → Bool
is_present none = false
is_present (some a) = true

-- The roster of a swarm.
abbrev pub roster_of : Swarm → Roster
roster_of swarm c j = is_present (swarm c j)

abbrev pub enter : Roster → Bool → Bytes → Bool → Roster
enter roster kind peer_id there c j =
    if same_kind kind c && str_eq peer_id j then there else roster c j

-- What an event does to a roster: a completed leecher becomes a seeder.
abbrev pub enroll : ℕ → Roster → Bool → Bytes → Roster
enroll event roster is_seeder peer_id =
    if event == event_stopped
    then enter roster is_seeder peer_id false
    else if event == event_completed
    then (if roster false peer_id
        then enter (enter roster false peer_id false) true peer_id true
        else roster)
    else if event == event_none || event == event_started
    then enter roster is_seeder peer_id true
    else roster

-- An announcement with the address that it came from.
pub record Announcement : Type 0 where
  pub request : AnnounceRequest
  pub client_addr : Bytes
  pub is_seeder : Bool

abbrev pub enroll_all : List Announcement → Roster → Roster
enroll_all [] roster = roster
enroll_all (a ∷ more) roster =
    enroll_all more (enroll a.request.event roster a.is_seeder a.request.peer_id)

-- One update after the other.
unfoldable pub update_all : (p : Platform) → Config → Bytes → List Announcement → M p (Unit {0})
update_all p config hash [] = pure tt
update_all p config hash (a ∷ more) = do
  update_peer_list p config a.request a.client_addr hash a.is_seeder
  update_all p config hash more

is_present-put :
    (swarm : Swarm) (kind : Bool) (id : Bytes) (text : Option Bytes) (c : Bool) (j : Bytes)
    → is_present (put swarm kind id text c j)
      ≡ enter (roster_of swarm) kind id (is_present text) c j
is_present-put swarm kind id text c j = elim (Bool-cases (same_kind kind c && str_eq id j)) [
  | inl e ↦ rw e
  | inr e ↦ rw e
]

is_present-promote :
    (old : Option Bytes) (swarm : Swarm) (id : Bytes) (c : Bool) (j : Bytes)
    → is_present (promote old swarm id c j)
      ≡ (if is_present old
            then enter (enter (roster_of swarm) false id false) true id true
            else roster_of swarm)
          c j
is_present-promote none swarm id c j = refl
is_present-promote (some text) swarm id c j =
    is_present-put (put swarm false id none) true id (some text) c j
    ∙ ap (λ r. enter r true id true c j)
        (fun_ext (λ k. fun_ext (λ x. is_present-put swarm false id none k x)))

-- An event does to the roster of a swarm what it does to the swarm.
roster_of-announce :
    (event : ℕ) (swarm : Swarm) (is_seeder : Bool) (id object : Bytes) (c : Bool) (j : Bytes)
    → is_present (announce event swarm is_seeder id object c j)
      ≡ enroll event (roster_of swarm) is_seeder id c j
roster_of-announce event swarm is_seeder id object c j =
    elim (Bool-cases (event == event_stopped)) [
      | inl stopped ↦ rw stopped (is_present-put swarm is_seeder id none c j)
      | inr running ↦ elim (Bool-cases (event == event_completed)) [
        | inl completed ↦ rw (running, completed) (is_present-promote (swarm false id) swarm id c j)
        | inr partial ↦ elim (Bool-cases (event == event_none || event == event_started)) [
          | inl known ↦
              rw (running, partial, known) (is_present-put swarm is_seeder id (some object) c j)
          | inr unknown ↦ rw (running, partial, unknown)
        ]
      ]
    ]

-- Who is entered as both is there as both.
entered_both :
    (roster : Roster) (id : Bytes) (c : Bool)
    → enter (enter roster false id true) true id true c id ≡ true
entered_both roster id true = rw (str_eq_refl id)
entered_both roster id false = rw (str_eq_refl id)

module _ (p : Platform) (memory : HasMemory p) (store : IsStore p) (config : Config)
    (prefix : Bytes) (has_prefix : config.redis_key_prefix ≡ some prefix)
    (positive : 0 < config.announce_peer_ttl) (bounded : config.announce_peer_ttl < 2 ^ 31)
    (hash : Bytes) where
  -- Whom the store has for the torrent.
  abbrev pub roster_in : World p → Roster
  roster_in w = roster_of (swarm_of (store.value w.redis) prefix hash)

  roster_step :
      (a : Announcement) (w : World p)
      → ((update_peer_list p config a.request a.client_addr hash a.is_seeder w).0 ≡ done tt)
        × (roster_in (update_peer_list p config a.request a.client_addr hash a.is_seeder w).1
            ≡ enroll a.request.event (roster_in w) a.is_seeder a.request.peer_id)
  roster_step a w =
      let (ends, changes) =
        update_peer_list-announce p memory store config prefix has_prefix positive bounded a.request
          a.client_addr hash a.is_seeder w in
      (
        ends,
        fun_ext (λ c. fun_ext (λ j.
            ap is_present (changes c j)
            ∙ roster_of-announce a.request.event (swarm_of (store.value w.redis) prefix hash)
                a.is_seeder a.request.peer_id _ c j)),
      )

  -- With memory, a store that behaves as documented, a key prefix and a time to live that is
  -- positive and below 2 ^ 31: after any history of announcements, in which no time to live has run
  -- out, the store has for the torrent exactly the seeders and the leechers that the abstract
  -- roster has.
  pub update_all-enroll_all :
      (history : List Announcement) (w : World p)
      → ((update_all p config hash history w).0 ≡ done tt)
        × (roster_in (update_all p config hash history w).1 ≡ enroll_all history (roster_in w))
  unfolding update_all
  update_all-enroll_all [] w = (refl, refl)
  update_all-enroll_all (a ∷ more) w =
      let (ends, same) = roster_step a w in
      let (ends', same') =
        update_all-enroll_all more
          (update_peer_list p config a.request a.client_addr hash a.is_seeder w).1 in
      (rw (ends, ends'), rw (ends, same') (ap (enroll_all more) same))

  -- With memory, a store that behaves as documented, a key prefix, and a time to live that is
  -- positive and below 2 ^ 31: a peer that announced itself as a leecher with event started, and
  -- next as a seeder with event none, is listed as both.
  pub update_all_both :
      (a b : Announcement) (w : World p)
      → a.request.event ≡ event_started
      → a.is_seeder ≡ false
      → b.request.event ≡ event_none
      → b.is_seeder ≡ true
      → b.request.peer_id ≡ a.request.peer_id
      → (c : Bool)
      → roster_in (update_all p config hash (a ∷ b ∷ []) w).1 c a.request.peer_id ≡ true
  update_all_both a b w e f g h same c =
      ap (λ r. r c a.request.peer_id) (update_all-enroll_all (a ∷ b ∷ []) w).1
      ∙ rw (e, f, g, h, same) (entered_both (roster_in w) a.request.peer_id c)
