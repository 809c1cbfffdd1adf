-- ===== src/Peers/Pipelines.antt =====
-- The replies of Redis that the functions on peers read.
use mathlib.Core.Path.{subst}
use mathlib.Core.Option.{some-injective}
use native.Mathlib.Numerals.{unary_clauses}
use bttracker.Common.{
  ℕ, zero, suc, ◌+◌, ◌≤◌, ◌≡◌, refl, sym, ◌∙◌, arith, Bool, Option, none, some, List, [], ◌∷◌,
  length, set, take, get_elem?, length-set, length-take, Option-cases, inl, inr,
}
use bttracker.Memory.{Bytes}
use bttracker.Text.{codes}
use bttracker.Data.{Config, AnnounceRequest, PeerAddr}
use bttracker.Platform.{Platform, Reply}
use bttracker.Platform.Pipelines.{HasPipeline}
use bttracker.Exec.{or_fault, get_reply, append_command, out_of_bounds}
use bttracker.Exec.Posts.{Ensures, Ensures-pure, Ensures-or_fault, Ensures-bind, Ensures-then}
use bttracker.Exec.Pipelines.{
  Leaves, Leaves-pure, Leaves-or_fault, Leaves-if, Leaves-option, Leaves-bind, Leaves-then,
  command-Leaves, append_command-Leaves, get_reply-Leaves, malloc_unchecked-Leaves,
}
use bttracker.Random.{randr}
use bttracker.Random.Pipelines.{randr-Leaves}
use bttracker.Redis.Pipelines.{key_prefix-Leaves, asks-Leaves, increment_downloads-Leaves}
use bttracker.Peers.{
  new_peer, new_peer_addr, insert_peer, remove_peer, promoted, promote_peer, swap, draw_count,
  shuffle, append_gets, read_peer_addr, addr_of_reply, collect, peers_of_reply, peer_list,
}

-- No more keys are drawn than there are.
draw_count-le_total : (total num_want : ℕ) → draw_count total num_want ≤ total
unfolding draw_count
draw_count-le_total total num_want = ground arith

length-swap :
    (element : List Bytes) (i j : ℕ) (ys : List Bytes)
    → swap element i j ≡ some ys
    → length ys ≡ length element
unfolding swap
length-swap element i j ys e = elim (Option-cases (get_elem? element i)) [
  | inl out ↦ let missing : swap element i j ≡ none = rw (out, swap) in absurd cc
  | inr (x, at_i) ↦ elim (Option-cases (get_elem? element j)) [
    | inl out ↦ let missing : swap element i j ≡ none = rw (at_i, swap) (rw out) in absurd cc
    | inr (y, at_j) ↦
        let made : swap element i j ≡ some (set (set element i y) j x) =
          rw (at_i, swap) (rw at_j) in
        rw (← some-injective _ _ (sym made ∙ e))
          (length-set (set element i y) j x ∙ length-set element i y)
  ]
]

module _ (p : Platform) where
  pub shuffle-Ensures :
      (rounds i total : ℕ) (element : List Bytes)
      → Ensures (λ ys. length ys ≡ length element) (shuffle p rounds i total element)
  unfolding shuffle
  shuffle-Ensures zero i total element = Ensures-pure element refl
  shuffle-Ensures (suc rounds) i total element = Ensures-then (randr p i _) _ (λ j.
      Ensures-bind (λ ys. length ys ≡ length element) (or_fault out_of_bounds (swap element i j)) _
        (Ensures-or_fault out_of_bounds _ (length-swap element i j))
        (λ ys e.
          subst (λ n. Ensures (λ zs. length zs ≡ n) (shuffle p rounds (i + 1) total ys)) e
            (shuffle-Ensures rounds (i + 1) total ys)))

module _ (p : Platform) (pipe : HasPipeline p) where
  module _ (n : ℕ) where
    pub new_peer-Leaves :
        (request : AnnounceRequest) (sockaddr : ℕ) → Leaves pipe n n (new_peer p request sockaddr)
    unfolding new_peer
    new_peer-Leaves request sockaddr =
        Leaves-then _ _ (malloc_unchecked-Leaves pipe n 40) (λ block. Leaves-pure n _)

    pub insert_peer-Leaves :
        (config : Config) (hash peer_id peer_data : Bytes) (is_seeder : Bool)
        → Leaves pipe n n (insert_peer p config hash peer_id peer_data is_seeder)
    unfolding insert_peer
    insert_peer-Leaves config hash peer_id peer_data is_seeder = asks-Leaves p pipe n config _ _

    pub remove_peer-Leaves :
        (config : Config) (hash peer_id : Bytes) (is_seeder : Bool)
        → Leaves pipe n n (remove_peer p config hash peer_id is_seeder)
    unfolding remove_peer
    remove_peer-Leaves config hash peer_id is_seeder = asks-Leaves p pipe n config _ _

    promoted-Leaves :
        (config : Config) (hash : Bytes) (reply : Option Reply)
        → Leaves pipe n n (promoted p config hash reply)
    unfolding promoted
    promoted-Leaves config hash none = Leaves-pure n tt
    promoted-Leaves config hash (some reply) =
        Leaves-if n n _ _ _ (Leaves-pure n tt) (increment_downloads-Leaves p pipe n config hash)

    pub promote_peer-Leaves :
        (config : Config) (hash peer_id : Bytes)
        → Leaves pipe n n (promote_peer p config hash peer_id)
    unfolding promote_peer
    promote_peer-Leaves config hash peer_id =
        Leaves-then _ _ (key_prefix-Leaves p pipe n config)
          (λ prefix. Leaves-then _ _ (command-Leaves pipe n _) (promoted-Leaves config hash))

    shuffle-Leaves :
        (rounds i total : ℕ) (element : List Bytes)
        → Leaves pipe n n (shuffle p rounds i total element)
    unfolding shuffle
    shuffle-Leaves zero i total element = Leaves-pure n element
    shuffle-Leaves (suc rounds) i total element = Leaves-then _ _ (randr-Leaves p pipe n i _) (λ j.
        Leaves-then _ _ (Leaves-or_fault n out_of_bounds (swap element i j))
          (λ ys. shuffle-Leaves rounds (i + 1) total ys))

    texts-Leaves :
        (reply : Reply) (o : Option Bytes) → reply.str ≡ o → Leaves pipe n n (addr_of_reply p reply)
    unfolding addr_of_reply new_peer_addr
    texts-Leaves reply none e = rw (e, addr_of_reply) (record { at = λ w h. tt })
    texts-Leaves reply (some str) e =
        rw (e, addr_of_reply)
          (Leaves-then _ _ (Leaves-or_fault n out_of_bounds (read_peer_addr p str)) (λ addr.
            Leaves-then _ _ (malloc_unchecked-Leaves pipe n 8) (λ block. Leaves-pure n addr)))

    addr_of_reply-Leaves : (reply : Reply) → Leaves pipe n n (addr_of_reply p reply)
    addr_of_reply-Leaves reply = texts-Leaves reply reply.str refl

  -- One reply is to come for each key.
  append_gets-Leaves :
      (n : ℕ) (keys : List Bytes) → Leaves pipe n (n + length keys) (append_gets p keys)
  unfolding append_gets
  append_gets-Leaves n [] = simp unary_clauses (Leaves-pure n tt)
  append_gets-Leaves n (key ∷ keys) =
      let count : n + suc (length keys) ≡ suc n + length keys = omega arith in
      rw count (
        Leaves-then (append_command p (codes "GET" ∷ key ∷ [])) _ (append_command-Leaves pipe n _)
          (λ _. append_gets-Leaves (suc n) keys))

  -- The loop reads one reply in each round.
  collect-Leaves :
      (n rounds : ℕ) (list : List PeerAddr) (count : ℕ)
      → Leaves pipe (n + rounds) n (collect p rounds list count)
  unfolding collect
  collect-Leaves n zero list count = simp unary_clauses (Leaves-pure n (list, count))
  collect-Leaves n (suc rounds) list count =
      Leaves-then (get_reply p) _ (simp unary_clauses (get_reply-Leaves pipe (n + rounds)))
        (λ reply. Leaves-option _ _ reply _ _ (collect-Leaves n rounds list count) (λ r.
          Leaves-then _ _ (addr_of_reply-Leaves (n + rounds) r)
            (λ addr. collect-Leaves n rounds (addr ∷ list) (count + 1))))

  -- As many keys are asked for as replies are read, whatever the listing holds.
  peers_of_reply-Leaves :
      (n num_want peer_count : ℕ) (reply : Option Reply)
      → Leaves pipe n n (peers_of_reply p num_want peer_count reply)
  unfolding peers_of_reply
  peers_of_reply-Leaves n num_want peer_count none = Leaves-pure n ([], peer_count)
  peers_of_reply-Leaves n num_want peer_count (some reply) =
      let total = length reply.element in
      let rounds = draw_count total num_want in
      Leaves-if n n _ _ _
        (Leaves-bind (λ ys. length ys ≡ total) n n n (shuffle p rounds 0 total reply.element) _
          (shuffle-Ensures p rounds 0 total reply.element)
          (shuffle-Leaves n rounds 0 total reply.element)
          (λ ys same.
            let asked : length (take rounds ys) ≡ rounds =
              length-take rounds ys (omega (arith, draw_count-le_total total num_want)) in
            Leaves-then (append_gets p (take rounds ys)) _ (append_gets-Leaves n (take rounds ys))
              (λ _. rw asked (collect-Leaves n rounds [] 0))))
        (Leaves-pure n ([], 0))

  pub peer_list-Leaves :
      (n : ℕ) (config : Config) (hash : Bytes) (num_want peer_count : ℕ) (seeder : Bool)
      → Leaves pipe n n (peer_list p config hash num_want peer_count seeder)
  unfolding peer_list
  peer_list-Leaves n config hash num_want peer_count seeder =
      Leaves-then _ _ (key_prefix-Leaves p pipe n config) (λ prefix.
        Leaves-then _ _ (command-Leaves pipe n _) (peers_of_reply-Leaves n num_want peer_count))
