-- ===== src/Redis/Effects.antt =====
-- What the functions on connections and torrents answer for each kind of reply.
use mathlib.Core.Logic.{◌↔◌}
use bttracker.Common.{
  ℕ, ◌≡◌, ◌≢◌, refl, sym, ap, ◌∙◌, arith, Bool, true, Option, none, some, List, [], ◌∷◌,
}
use bttracker.Memory.{Bytes}
use bttracker.Text.{codes, print_int}
use bttracker.Data.{Config}
use bttracker.Platform.{Platform, World, Reply, ReplyType}
use bttracker.Exec.{Outcome, done, command}
use bttracker.Redis.{
  key_prefix, reply_valid, connection_key, insert_connection, connection_valid, increment_downloads,
  torrent_key,
}

-- The state of the store after a command, and the reply to it.
abbrev pub after : (p : Platform) → List Bytes → World p → World p
after p words w = record w { redis = (p.redis_command words w.redis).1 }

abbrev pub reply_to : (p : Platform) → List Bytes → World p → Option Reply
reply_to p words w = (p.redis_command words w.redis).0

pub command-done :
    (p : Platform) (words : List Bytes) (w : World p)
    → command p words w ≡ (done (reply_to p words w), after p words w)
unfolding command
command-done p words w = refl

done_injective : {a b : Bool} → ◌≡◌ {A = Outcome Bool} (done a) (done b) → a ≡ b
done_injective h = cc

reply_valid-some :
    (o : Option Reply)
    → reply_valid o ≡ true
    → (r : Reply) × (o ≡ some r) × (r.type ≢ ReplyType.error)
unfolding reply_valid
reply_valid-some none h = cc
reply_valid-some (some r) h = (r, refl, ground arith)

not_error-valid : (r : Reply) → r.type ≢ ReplyType.error → reply_valid (some r) ≡ true
unfolding reply_valid
not_error-valid r h = ground arith

module _ (p : Platform) (config : Config) (prefix : Bytes)
    (has_prefix : config.redis_key_prefix ≡ some prefix) where
  pub key_prefix-done : (w : World p) → key_prefix {p = p} config w ≡ (done prefix, w)
  unfolding key_prefix
  key_prefix-done w = ground arith

  abbrev pub get_connection : ℕ → List Bytes
  get_connection id = codes "GET" ∷ connection_key p prefix id ∷ []

  abbrev pub set_connection : ℕ → List Bytes
  set_connection id = codes "SETEX" ∷ connection_key p prefix id ∷ codes "120" ∷ codes "1" ∷ []

  pub insert_connection-done :
      (id : ℕ) (w : World p)
      → insert_connection p config id w ≡ (done tt, after p (set_connection id) w)
  unfolding insert_connection command print_int
  insert_connection-done id w = rw (key_prefix-done w)

  pub connection_valid-done :
      (id : ℕ) (w : World p)
      → connection_valid p config id w
        ≡ (done (reply_valid (reply_to p (get_connection id) w)), after p (get_connection id) w)
  unfolding connection_valid command
  connection_valid-done id w = rw (key_prefix-done w)

  -- With a key prefix, the check of an identifier passes exactly when a reply comes that is not
  -- an error.
  pub connection_valid_iff :
      (id : ℕ) (w : World p)
      → ((connection_valid p config id w).0 ≡ done true)
        ↔ ((r : Reply) × (reply_to p (get_connection id) w ≡ some r) × (r.type ≢ ReplyType.error))
  connection_valid_iff id w = (
    λ h. reply_valid-some (reply_to p (get_connection id) w) (
        done_injective
          (sym (ap (λ (x : Outcome Bool × World p). x.0) (connection_valid-done id w)) ∙ h)),
    λ (r, came, fine). rw (connection_valid-done id w, came) (ap done (not_error-valid r fine)),
  )

  abbrev pub count_download : Bytes → List Bytes
  count_download info_hash_str =
      codes "HINCRBY" ∷ torrent_key prefix info_hash_str ∷ codes "downs" ∷ codes "1" ∷ []

  pub increment_downloads-done :
      (info_hash_str : Bytes) (w : World p)
      → increment_downloads p config info_hash_str w
        ≡ (done tt, after p (count_download info_hash_str) w)
  unfolding increment_downloads command
  increment_downloads-done info_hash_str w = rw (key_prefix-done w)
