-- ===== src/Scrape/Reference.antt =====
-- The loop over the hashes of a scrape, which counts and builds its list front first, against a
-- recursion over the list of the hashes.
use mathlib.Core.List.{reverse-cons, reverse-reverse}
use bttracker.Common.{
  ℕ, zero, suc, ◌+◌, ◌*◌, ◌%◌, ◌^◌, ◌≡◌, refl, sym, ap, ◌∙◌, true, false, Option, none, some, List,
  [], ◌∷◌, ◌++◌, length, reverse, append_assoc, append-nil, if◌then◌else◌,
}
use bttracker.Memory.{Bytes, slice}
use bttracker.Data.{Config, Request, ResponseBuffer, TorrentStats}
use bttracker.Net.{read_scrape_request_data}
use bttracker.Platform.{Platform, World}
use bttracker.Platform.Laws.{HasMemory, HasReplies}
use bttracker.Exec.{M, done, malloc, continue, ◌>>=◌, pure, or_fault, out_of_bounds, stack_object}
use bttracker.Exec.Binds.{bind_extends, bind_cong}
use bttracker.Hex.{bytearray_to_hexarray}
use bttracker.Text.{codes}
use bttracker.Redis.{info_hash_blacklisted, swarm_key, torrent_key, download_count}
use bttracker.Redis.Stats.{get_torrent_stats-counts}
use bttracker.Handshake.{valid_request}
use bttracker.ErrorReply.{send_error}
use bttracker.Scrape.{
  stats_of_bytes, pointed_stats, entry_stats, blacklisted_text, serialize_scrape_response,
  scrape_loop, scrape_response, handle_scrape,
}

-- The hashes of an array, from the `i`-th on.
abbrev pub hashes_of : Bytes → ℕ → ℕ → List Bytes
hashes_of info_hash zero i = []
hashes_of info_hash (suc rounds) i =
    slice (i * 20) 20 info_hash ∷ hashes_of info_hash rounds (i + 1)

-- What the loop has, given what the recursion has.
abbrev front_first : List TorrentStats → Option (List TorrentStats) → Option (List TorrentStats)
front_first before none = none
front_first before (some entries) = some (reverse entries ++ before)

abbrev with_stats : TorrentStats → Option (List TorrentStats) → Option (List TorrentStats)
with_stats stats none = none
with_stats stats (some entries) = some (stats ∷ entries)

front_first_cons :
    (stats : TorrentStats) (before : List TorrentStats) (o : Option (List TorrentStats))
    → front_first (stats ∷ before) o ≡ front_first before (with_stats stats o)
front_first_cons stats before none = refl
front_first_cons stats before (some entries) = rw (reverse-cons stats entries, append_assoc)

module _ (p : Platform) (memory : HasMemory p) (replies : HasReplies p) (config : Config)
    (prefix : Bytes) (has_prefix : config.redis_key_prefix ≡ some prefix) where
  -- What Redis has of a torrent: the keys of its seeders, those of its leechers, and the times it was
  -- downloaded, asked for all at once and answered in that order.
  abbrev asked : Bytes → p.Redis → p.Redis
  asked hash s =
      p.redis_append_command
        (codes "HGET" ∷ (prefix ++ (codes ":ih:" ++ hash)) ∷ codes "downs" ∷ [])
        (p.redis_append_command (codes "KEYS" ∷ swarm_key prefix hash false (codes "*") ∷ [])
          (p.redis_append_command (codes "KEYS" ∷ swarm_key prefix hash true (codes "*") ∷ []) s))

  -- The store after a reply was taken.
  abbrev rest : p.Redis → p.Redis
  rest s = (p.redis_get_reply s).1

  pub counted : Bytes → M p TorrentStats
  counted hash w =
      let s = asked hash w.redis in
      (
        done (record {
          seeders = length (replies.reply s).element % 2 ^ 32;
          leechers = length (replies.reply (rest s)).element % 2 ^ 32;
          downloads = download_count (replies.reply (rest (rest s)));
        }),
        record w { redis = rest (rest (rest s)); heap = (p.malloc 12 w.heap).1 },
      )

  entry_stats-counted : (hash : Bytes) (w : World p) → entry_stats p config hash w ≡ counted hash w
  unfolding entry_stats pointed_stats malloc counted torrent_key
  entry_stats-counted hash w =
      let s = asked hash w.redis in
      rw (memory.malloc_block 12 w.heap) (
        get_torrent_stats-counts p config prefix has_prefix hash
          (record w { heap = (p.malloc 12 w.heap).1 }) (stats_of_bytes p (memory.block 12 w.heap)) _
          _ _ (replies.get_reply_some s) (replies.get_reply_some (rest s))
          (replies.get_reply_some (rest (rest s))))

  -- The statistics of each torrent, in the order of the hashes, or `none` at a blacklisted one.
  pub scrape_each : List Bytes → M p (Option (List TorrentStats))
  scrape_each [] = pure (some [])
  scrape_each (hash ∷ hashes) = do
    info_hash_str ← bytearray_to_hexarray p hash
    blacklisted ← info_hash_blacklisted p config info_hash_str
    elim blacklisted [
      | true ↦ pure none
      | false ↦ do
        stats ← counted info_hash_str
        entries ← scrape_each hashes
        pure (with_stats stats entries)
    ]

  scrape_loop-scrape_each :
      (info_hash : Bytes) (rounds i : ℕ) (before : List TorrentStats) (w : World p)
      → scrape_loop p config info_hash rounds i before w
        ≡ (scrape_each (hashes_of info_hash rounds i) >>= λ o. pure (front_first before o)) w
  unfolding scrape_loop scrape_each
  scrape_loop-scrape_each info_hash zero i before w = refl
  scrape_loop-scrape_each info_hash (suc rounds) i before w =
      bind_extends (bytearray_to_hexarray p (slice (i * 20) 20 info_hash)) _ _ _
        (λ info_hash_str. bind_extends (info_hash_blacklisted p config info_hash_str) _ _ _ (elim [
          | true ↦ λ v. refl
          | false ↦ λ u.
              ap
                (λ r.
                  continue r.0 r.1
                    (λ stats. scrape_loop p config info_hash rounds (i + 1) (stats ∷ before)))
                (entry_stats-counted info_hash_str u)
              ∙ bind_extends (counted info_hash_str) _ _ _
                  (λ stats v.
                    scrape_loop-scrape_each info_hash rounds (i + 1) (stats ∷ before) v
                    ∙ bind_extends (scrape_each (hashes_of info_hash rounds (i + 1))) _ _ _
                        (λ o u. ap (λ r. pure {p = p} r u) (front_first_cons stats before o)) v)
                  u
        ]))
        w

  respond : Request → Option (List TorrentStats) → M p ResponseBuffer
  respond request none = send_error p request (some blacklisted_text)
  respond request (some scrape_entries) = serialize_scrape_response p (record {
    action = request.action;
    transaction_id = request.transaction_id;
    scrape_entries = scrape_entries;
  })

  -- The handler with the recursion in place of the loop.
  pub scrape_reference : Request → Bytes → ℕ → M p (Option ResponseBuffer)
  unfolding respond
  scrape_reference request buff buflen = do
    valid ← valid_request p config request buflen
    if valid
        then (do
          array ← stack_object p 160
          scrape_request ←
              or_fault out_of_bounds (read_scrape_request_data p.target p.endian buff buflen array)
          entries ← scrape_each (hashes_of scrape_request.info_hash scrape_request.info_hash_len 0)
          resp ← respond request entries
          pure (some resp))
        else pure none

  respond-front_first :
      (request : Request) (o : Option (List TorrentStats)) (w : World p)
      → scrape_response p request (front_first [] o) w ≡ respond request o w
  unfolding scrape_response respond
  respond-front_first request none w = refl
  respond-front_first request (some entries) w = rw (append-nil, reverse-reverse entries)

  after_loop :
      (info_hash : Bytes) (rounds : ℕ) (request : Request) (w : World p)
      → (scrape_loop p config info_hash rounds 0 [] >>= λ entries.
            scrape_response p request entries >>= λ resp. pure (some resp))
          w
        ≡ (scrape_each (hashes_of info_hash rounds 0) >>= λ entries.
              respond request entries >>= λ resp. pure (some resp))
            w
  after_loop info_hash rounds request w =
      let finish : M p ResponseBuffer → M p (Option ResponseBuffer) =
        λ m. m >>= λ resp. pure (some resp) in
      ap (λ r. continue r.0 r.1 (λ entries. finish (scrape_response p request entries)))
        (scrape_loop-scrape_each info_hash rounds 0 [] w)
      ∙ sym (
          bind_extends (scrape_each (hashes_of info_hash rounds 0))
            (λ o. finish (scrape_response p request (front_first [] o))) _ _ (λ o u. refl) w)
      ∙ bind_cong (scrape_each (hashes_of info_hash rounds 0)) _ _
          (λ o u.
            ap (λ r. continue r.0 r.1 (λ resp. pure (some resp))) (respond-front_first request o u))
          w

  -- With memory, a key prefix and no failing `redisGetReply`, the handler of a scrape does what the
  -- reference does: it asks for the hashes of the packet one by one in their order, stops at a
  -- blacklisted one with an error, and else answers, in the same order, with the number of keys that
  -- the seeders of each torrent have, the number that its leechers have, and its downloads.
  pub handle_scrape-scrape_reference :
      (request : Request) (buff : Bytes) (buflen : ℕ) (w : World p)
      → handle_scrape p request config buff buflen w ≡ scrape_reference request buff buflen w
  unfolding handle_scrape scrape_reference
  handle_scrape-scrape_reference request buff buflen =
      bind_cong (valid_request p config request buflen) _ _ (elim [
        | false ↦ λ v. refl
        | true ↦ bind_cong (stack_object p 160) _ _ (λ array.
            bind_cong
              (or_fault out_of_bounds
                (read_scrape_request_data p.target p.endian buff buflen array))
              _ _
              (λ scrape_request.
                after_loop scrape_request.info_hash scrape_request.info_hash_len request))
      ])
