-- ===== src/Peers/Limits.antt =====
-- How many peers are listed.
use bttracker.Common.{
  ℕ, zero, suc, ◌+◌, ◌^◌, ◌≤◌, ◌<◌, arith, Bool, Option, none, some, List, [], ◌∷◌, length, take,
}
use bttracker.Memory.{Bytes, size_of_int32}
use bttracker.Data.{Config, PeerAddr}
use bttracker.Platform.{Platform, Reply}
use bttracker.Exec.Posts.{Ensures, Ensures-pure, Ensures-if, Ensures-option, Ensures-then}
use bttracker.Text.{codes}
use bttracker.Exec.{command, get_reply}
use bttracker.Redis.{key_prefix, swarm_key}
use bttracker.Peers.{
  shuffle, append_gets, addr_of_reply, draw_count, collect, peers_of_reply, peer_list,
}

draw_count-le_wanted :
    (total num_want : ℕ) → num_want < 2 ^ 31 → draw_count total num_want ≤ num_want
unfolding draw_count size_of_int32
draw_count-le_wanted total num_want h = ground arith

module _ (p : Platform) where
  abbrev pub IsUpTo : ℕ → List PeerAddr × ℕ → Type 0
  IsUpTo n r = r.1 ≤ n

  collect-Ensures :
      (n rounds : ℕ) (list : List PeerAddr) (count : ℕ)
      → rounds + count ≤ n
      → Ensures (IsUpTo n) (collect p rounds list count)
  unfolding collect
  collect-Ensures n zero list count h = Ensures-pure (list, count) (omega arith)
  collect-Ensures n (suc rounds) list count h = Ensures-then (get_reply p) _ (λ reply.
      Ensures-option reply _ _ (collect-Ensures n rounds list count (omega arith)) (λ r.
        Ensures-then (addr_of_reply p r) _
          (λ addr. collect-Ensures n rounds (addr ∷ list) (count + 1) (omega arith))))

  peers_of_reply-Ensures :
      (num_want : ℕ) (reply : Option Reply)
      → num_want < 2 ^ 31
      → Ensures (IsUpTo num_want) (peers_of_reply p num_want 0 reply)
  unfolding peers_of_reply
  peers_of_reply-Ensures num_want none h = Ensures-pure _ (omega arith)
  peers_of_reply-Ensures num_want (some reply) h =
      let total = length reply.element in
      let rounds = draw_count total num_want in
      Ensures-if _ _ _
        (Ensures-then (shuffle p rounds 0 total reply.element) _ (λ ys.
          Ensures-then (append_gets p (take rounds ys)) _ (λ asked.
            collect-Ensures num_want rounds [] 0
              (omega (arith, draw_count-le_wanted total num_want h)))))
        (Ensures-pure _ (omega arith))

  pub peer_list-Ensures :
      (config : Config) (hash : Bytes) (num_want : ℕ) (seeder : Bool)
      → num_want < 2 ^ 31
      → Ensures (IsUpTo num_want) (peer_list p config hash num_want 0 seeder)
  unfolding peer_list
  peer_list-Ensures config hash num_want seeder h = Ensures-then (key_prefix config) _ (λ prefix.
      Ensures-then (command p (codes "KEYS" ∷ swarm_key prefix hash seeder (codes "*") ∷ [])) _
        (λ reply. peers_of_reply-Ensures num_want reply h))
