-- ===== src/Net/Heads.antt =====
-- The first eight bytes of a response: the action and the transaction, in network byte order.
use mathlib.Core.Path.{subst}
use bttracker.Common.{
  ℕ, zero, suc, ◌+◌, ◌*◌, ◌≤◌, ◌≡◌, refl, ap, arith, Option, none, some, List, [], ◌∷◌, ◌++◌,
  length, take, take-append, append_assoc, length-append, length-take, leb, leb→le, Bool-cases, inl,
  inr,
}
use bttracker.Memory.{Bytes, Endian, to_be, store, hton, memcpy}
use bttracker.Memory.Order.{length-to_be, store-hton}
use bttracker.ByteOrder.{Target}
use bttracker.Data.{
  Request, ConnectionResponse, AnnounceResponse, ScrapeResponse, TorrentStats, PeerAddr,
}
use bttracker.Net.{
  ◌>>=◌, write_connection_data, write_error_data, write_announce_response_data, write_peer,
  write_announce_peers, write_announce_peer_data, stats_bytes, write_scrape_entries,
  write_scrape_response_data,
}

abbrev pub head : ℕ → ℕ → Bytes
head action transaction_id = to_be 4 action ++ to_be 4 transaction_id

abbrev pub IfSome : (Bytes → Type 0) → Option Bytes → Type 0
IfSome P none = Unit
IfSome P (some b) = P b

IfSome-bind :
    (P Q : Bytes → Type 0) (o : Option Bytes) (f : Bytes → Option Bytes)
    → IfSome Q o
    → ((b : Bytes) → Q b → IfSome P (f b))
    → IfSome P (o >>= f)
IfSome-bind P Q none f h k = tt
IfSome-bind P Q (some b) f h k = k b h

take-take_append :
    (n off : ℕ) (xs ys : Bytes) → n ≤ off → off ≤ length xs → take n (take off xs ++ ys) ≡ take n xs
take-take_append zero off xs ys h k = refl
take-take_append (suc n) zero xs ys h k = absurd (omega arith)
take-take_append (suc n) (suc off) [] ys h k = absurd (omega arith)
take-take_append (suc n) (suc off) (x ∷ xs) ys h k =
    ap (λ t. x ∷ t) (take-take_append n off xs ys (omega arith) (omega arith))

take-written :
    (off : ℕ) (dst src rest : Bytes)
    → off ≤ length dst
    → take (off + length src) (take off dst ++ (src ++ rest)) ≡ take off dst ++ src
take-written off dst src rest h =
    let size : off + length src ≡ length (take off dst ++ src) =
      omega (arith, length-append (take off dst) src, length-take off dst h) in
    rw (size, ← append_assoc (take off dst) src rest) (take-append (take off dst ++ src) rest)

-- A write leaves what stands before it, and puts its bytes there.
memcpy-keeps :
    (n : ℕ) (dst : Bytes) (off : ℕ) (src : Bytes)
    → n ≤ off
    → IfSome (λ b. take n b ≡ take n dst) (memcpy dst off src)
unfolding memcpy
memcpy-keeps n dst off src h = elim (Bool-cases (leb (off + length src) (length dst))) [
  | inl fits ↦
      let within = leb→le (off + length src) (length dst) fits in
      rw fits (take-take_append n off dst _ h (omega arith))
  | inr beyond ↦ rw beyond tt
]

memcpy-puts :
    (dst : Bytes) (off : ℕ) (src : Bytes)
    → IfSome (λ b. take (off + length src) b ≡ take off dst ++ src) (memcpy dst off src)
unfolding memcpy
memcpy-puts dst off src = elim (Bool-cases (leb (off + length src) (length dst))) [
  | inl fits ↦
      let within = leb→le (off + length src) (length dst) fits in
      rw fits (take-written off dst src _ (omega arith))
  | inr beyond ↦ rw beyond tt
]

abbrev pub IsHeaded : Bytes → Bytes → Type 0
IsHeaded hd b = take 8 b ≡ hd

kept-IsHeaded :
    (hd b : Bytes) (off : ℕ) (src : Bytes)
    → 8 ≤ off
    → IsHeaded hd b
    → IfSome (IsHeaded hd) (memcpy b off src)
kept-IsHeaded hd b off src h e =
    subst (λ h. IfSome (λ c. take 8 c ≡ h) (memcpy b off src)) e (memcpy-keeps 8 b off src h)

module _ (e : Endian) where
  put_word :
      (dst : Bytes) (off v : ℕ)
      → IfSome
          (λ b. take (off + 4) b ≡ take off dst ++ to_be 4 v)
          (memcpy dst off (store e 4 (hton e 4 v)))
  put_word dst off v = rw (store-hton e 4 v) (
      subst
        (λ n.
          IfSome (λ b. take (off + n) b ≡ take off dst ++ to_be 4 v) (memcpy dst off (to_be 4 v)))
        (length-to_be 4 v) (memcpy-puts dst off (to_be 4 v)))

  -- The two fields that every writer begins with.
  headed :
      (P : Bytes → Type 0) (dst : Bytes) (action transaction_id : ℕ) (f : Bytes → Option Bytes)
      → ((b : Bytes) → IsHeaded (head action transaction_id) b → IfSome P (f b))
      → IfSome P (
          memcpy dst 0 (store e 4 (hton e 4 action)) >>= λ b.
          memcpy b 4 (store e 4 (hton e 4 transaction_id)) >>= f)
  headed P dst action transaction_id f k =
      IfSome-bind P (λ b. take 4 b ≡ to_be 4 action) (memcpy dst 0 _) _ (put_word dst 0 action)
        (λ b first.
          IfSome-bind P (IsHeaded (head action transaction_id)) (memcpy b 4 _) f
            (subst
              (λ t.
                IfSome (λ c. take 8 c ≡ t ++ to_be 4 transaction_id)
                  (memcpy b 4 (store e 4 (hton e 4 transaction_id))))
              first (put_word b 4 transaction_id))
            k)

  pub connection-IsHeaded :
      (t : Target) (b : Bytes) (resp : ConnectionResponse)
      → IfSome (IsHeaded (head resp.action resp.transaction_id)) (write_connection_data t e b resp)
  unfolding write_connection_data
  connection-IsHeaded t b resp = headed _ b resp.action resp.transaction_id _ (λ b h.
      IfSome-bind _ (IsHeaded _) (memcpy b 8 _) _ (kept-IsHeaded _ b 8 _ (omega arith) h)
        (λ b h. h))

  pub error-IsHeaded :
      (b : Bytes) (req : Request) (msg : Bytes)
      → IfSome (IsHeaded (head req.action req.transaction_id)) (write_error_data e b req msg)
  unfolding write_error_data
  error-IsHeaded b req msg = headed _ b req.action req.transaction_id _ (λ b h.
      IfSome-bind _ (IsHeaded _) (memcpy b 8 _) _ (kept-IsHeaded _ b 8 _ (omega arith) h)
        (λ b h. h))

  pub announce_response-IsHeaded :
      (b : Bytes) (resp : AnnounceResponse)
      → IfSome
          (IsHeaded (head resp.action resp.transaction_id))
          (write_announce_response_data e b resp)
  unfolding write_announce_response_data
  announce_response-IsHeaded b resp = headed _ b resp.action resp.transaction_id _ (λ b h.
      IfSome-bind _ (IsHeaded _) (memcpy b 8 _) _ (kept-IsHeaded _ b 8 _ (omega arith) h) (λ b h.
        IfSome-bind _ (IsHeaded _) (memcpy b 12 _) _ (kept-IsHeaded _ b 12 _ (omega arith) h)
          (λ b h.
            IfSome-bind _ (IsHeaded _) (memcpy b 16 _) _ (kept-IsHeaded _ b 16 _ (omega arith) h)
              (λ b h. h))))

  peers-IsHeaded :
      (hd b : Bytes) (npeer : ℕ) (peers : List PeerAddr)
      → IsHeaded hd b
      → IfSome (IsHeaded hd) (write_announce_peers e b npeer peers)
  unfolding write_announce_peers write_peer
  peers-IsHeaded hd b npeer [] h = h
  peers-IsHeaded hd b npeer (peer ∷ peers) h =
      IfSome-bind _ (IsHeaded hd) (write_peer e b npeer peer) _
        (IfSome-bind _ (IsHeaded hd) (memcpy b (20 + 6 * npeer) _) _
          (kept-IsHeaded hd b _ _ (omega arith) h)
          (λ b h.
            IfSome-bind _ (IsHeaded hd) (memcpy b (24 + 6 * npeer) _) _
              (kept-IsHeaded hd b _ _ (omega arith) h) (λ b h. h)))
        (λ b h. peers-IsHeaded hd b (npeer + 1) peers h)

  pub announce_peers-IsHeaded :
      (hd b : Bytes) (peers : List PeerAddr)
      → IsHeaded hd b
      → IfSome (IsHeaded hd) (write_announce_peer_data e b peers)
  unfolding write_announce_peer_data
  announce_peers-IsHeaded hd b peers h = peers-IsHeaded hd b 0 peers h

  entries-IsHeaded :
      (hd b : Bytes) (nentry : ℕ) (entries : List TorrentStats)
      → IsHeaded hd b
      → IfSome (IsHeaded hd) (write_scrape_entries e b nentry entries)
  unfolding write_scrape_entries
  entries-IsHeaded hd b nentry [] h = h
  entries-IsHeaded hd b nentry (entry ∷ entries) h =
      IfSome-bind _ (IsHeaded hd) (memcpy b (8 + 12 * nentry) (stats_bytes e entry)) _
        (kept-IsHeaded hd b _ _ (omega arith) h)
        (λ b h. entries-IsHeaded hd b (nentry + 1) entries h)

  pub scrape_response-IsHeaded :
      (b : Bytes) (resp : ScrapeResponse)
      → IfSome
          (IsHeaded (head resp.action resp.transaction_id))
          (write_scrape_response_data e b resp)
  unfolding write_scrape_response_data
  scrape_response-IsHeaded b resp =
      headed _ b resp.action resp.transaction_id _
        (λ b h. entries-IsHeaded _ b 0 resp.scrape_entries h)
