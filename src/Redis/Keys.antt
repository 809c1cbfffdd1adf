-- ===== src/Redis/Keys.antt =====
-- The keys of one prefix: which of them can be the same.
use bttracker.Common.{
  ℕ, ◌≡◌, ◌≢◌, refl, sym, ap, ◌∙◌, arith, Bool, true, false, [], ◌∷◌, ◌++◌, length, All,
  if◌then◌else◌,
}
use bttracker.Memory.{Bytes, IsByte}
use bttracker.Text.{codes}
use bttracker.Platform.{Platform}
use bttracker.Hex.{hex_digits}
use bttracker.Hex.RoundTrip.{from_hex, from_hex-hex_digits, hex_digits_shape}
use bttracker.Redis.{connection_key, torrent_key, swarm_key}

cons-tail : {x y : ℕ} {xs ys : Bytes} → x ∷ xs ≡ y ∷ ys → xs ≡ ys
cons-tail h = cc

cons-head : {x y : ℕ} {xs ys : Bytes} → x ∷ xs ≡ y ∷ ys → x ≡ y
cons-head h = cc

-- Texts with the same front.
append-cancel : (pre xs ys : Bytes) → pre ++ xs ≡ pre ++ ys → xs ≡ ys
append-cancel [] xs ys h = h
append-cancel (c ∷ pre) xs ys h = append-cancel pre xs ys (cons-tail h)

-- Texts whose fronts have the same length.
append-split :
    (xs ys us vs : Bytes) → length xs ≡ length ys → xs ++ us ≡ ys ++ vs → (xs ≡ ys) × (us ≡ vs)
append-split [] [] us vs e h = (refl, h)
append-split [] (y ∷ ys) us vs e h = absurd (omega arith)
append-split (x ∷ xs) [] us vs e h = absurd (omega arith)
append-split (x ∷ xs) (y ∷ ys) us vs e h =
    let (same, rest) = append-split xs ys us vs (omega arith) (cons-tail h) in
    let c : x ≡ y = cons-head h in (cc, rest)

-- What follows the hash in the key of a peer.
abbrev peer_part : Bool → Bytes → Bytes
peer_part kind peer_id =
    codes ":" ++ ((if kind then codes "sd" else codes "lc") ++ (codes ":" ++ peer_id))

peer_part-injective :
    (k k' : Bool) (id id' : Bytes) → peer_part k id ≡ peer_part k' id' → (k ≡ k') × (id ≡ id')
peer_part-injective true true id id' h = (refl, append-cancel (codes ":sd:") id id' h)
peer_part-injective false false id id' h = (refl, append-cancel (codes ":lc:") id id' h)
peer_part-injective true false id id' h = absurd (omega (arith, cons-head (cons-tail h)))
peer_part-injective false true id id' h = absurd (omega (arith, cons-head (cons-tail h)))

module _ (prefix : Bytes) where
  -- Under one prefix, for info hashes of the same length: two keys of peers are the same only if
  -- they are of the same torrent, the same kind and the same peer.
  pub swarm_key-injective :
      (hash hash' : Bytes) (k k' : Bool) (id id' : Bytes)
      → All IsByte hash
      → All IsByte hash'
      → length hash ≡ length hash'
      → swarm_key prefix (hex_digits hash) k id ≡ swarm_key prefix (hex_digits hash') k' id'
      → (hash ≡ hash') × (k ≡ k') × (id ≡ id')
  unfolding swarm_key
  swarm_key-injective hash hash' k k' id id' b b' e h =
      let (size, digits) = hex_digits_shape hash b in
      let (size', digits') = hex_digits_shape hash' b' in
      let (texts, rest) =
        append-split (hex_digits hash) (hex_digits hash') (peer_part k id) (peer_part k' id')
          (omega arith) (append-cancel (codes ":pr:") _ _ (append-cancel prefix _ _ h)) in
      let (kinds, ids) = peer_part-injective k k' id id' rest in
      (
        sym (from_hex-hex_digits hash b) ∙ ap from_hex texts ∙ from_hex-hex_digits hash' b',
        kinds,
        ids,
      )

  -- Under one prefix, no key of a connection, of a torrent and of a peer are the same.
  pub keys_differ :
      (p : Platform) (id : ℕ) (hash hash' peer_id : Bytes) (k : Bool)
      → (connection_key p prefix id ≢ torrent_key prefix hash)
        × (connection_key p prefix id ≢ swarm_key prefix hash' k peer_id)
        × (torrent_key prefix hash ≢ swarm_key prefix hash' k peer_id)
  unfolding swarm_key connection_key torrent_key
  keys_differ p id hash hash' peer_id k = (
    λ h. absurd (omega (arith, cons-head (cons-tail (append-cancel prefix _ _ h)))),
    λ h. absurd (omega (arith, cons-head (cons-tail (append-cancel prefix _ _ h)))),
    λ h. absurd (omega (arith, cons-head (cons-tail (append-cancel prefix _ _ h)))),
  )
