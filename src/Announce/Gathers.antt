-- ===== src/Announce/Gathers.antt =====
-- The peers that an announce lists: those of the other kind first, then those of its own.
use bttracker.Common.{
  ℕ, ◌+◌, ◌-◌, ◌≤◌, ◌≡◌, arith, Bool, not, ◌&&◌, List, [], ◌∷◌, ◌++◌, append-nil, length,
  length-append, ltb, lt→ltb, if◌then◌else◌, Bool-cases, inl, inr,
}
use bttracker.Memory.{Bytes}
use bttracker.Data.{Config, PeerAddr}
use bttracker.Platform.{Platform, World}
use bttracker.Exec.{Outcome, done}
use bttracker.Peers.{peer_list}
use bttracker.Announce.{gather_peers}

-- An empty list of siblings changes nothing.
joined :
    (others siblings : List PeerAddr)
    → ◌≡◌ {A = Outcome (List PeerAddr × ℕ)}
        (done (
          if ltb 0 (length siblings) && ltb 0 (length siblings)
          then (others ++ siblings, length others + length siblings)
          else (others, length others)))
        (done (others ++ siblings, length (others ++ siblings)))
joined others [] = rw append-nil
joined others (a ∷ siblings) =
    rw (lt→ltb 0 (length (a ∷ siblings)) (omega arith), length-append others (a ∷ siblings))

module _ (p : Platform) (config : Config) (hash : Bytes) (num_want : ℕ) (is_seeder : Bool)
    (w : World p) where
  -- Where both lists are got and are no longer than was asked for, the answer lists the peers of the
  -- other kind, and behind them those of the same kind if the first were too few; the count is the
  -- length of the list, and no more than were wanted.
  pub gather_peers-done :
      (others siblings : List PeerAddr)
      → (peer_list p config hash num_want 0 (not is_seeder) w).0 ≡ done (others, length others)
      → length others ≤ num_want
      → (peer_list p config hash
          (num_want - length others)
          0
          is_seeder
          (peer_list p config hash num_want 0 (not is_seeder) w).1).0
        ≡ done (siblings, length siblings)
      → length siblings ≤ num_want - length others
      → (peers : List PeerAddr) × (peers
          ≡ others ++ (if ltb (length others) num_want then siblings else []))
        × ((gather_peers p config hash num_want is_seeder w).0 ≡ done (peers, length peers))
        × (length peers ≤ num_want)
  unfolding gather_peers
  gather_peers-done others siblings first few second fit =
      elim (Bool-cases (ltb (length others) num_want)) [
        | inr enough ↦ (others, rw (enough, append-nil), rw (first, enough), few)
        | inl lacking ↦ (
          others ++ siblings,
          rw lacking,
          rw (first, lacking) (rw second (joined others siblings)),
          omega (arith, length-append others siblings),
        )
      ]
