-- ===== src/Handshake/Sessions.antt =====
-- What a store of identifiers does for the requests that carry one.
use mathlib.Core.Path.{subst}
use bttracker.Common.{ℕ, ◌≤◌, ◌≡◌, ◌≢◌, ◌⊎◌, inl, inr, ap, ◌∙◌, arith, true, Option, none, some}
use bttracker.Memory.{Bytes}
use bttracker.Text.{codes, print_int, str_eq_refl}
use bttracker.Data.{Config, Request, action_connect, action_announce, action_scrape, protocol_id}
use bttracker.Platform.{Platform, World, Reply, ReplyType}
use bttracker.Platform.Laws.{HasMemory}
use bttracker.Platform.Stores.{IsStore, IsReadable, IsGot}
use bttracker.ByteOrder.{IsSupported}
use bttracker.Exec.{done}
use bttracker.Random.Identifiers.{identifier}
use bttracker.Redis.{connection_key}
use bttracker.Redis.Effects.{reply_to, get_connection, set_connection}
use bttracker.Handshake.{valid_request}
use bttracker.Handshake.Accepts.{IsKnown, valid_request_iff}
use bttracker.Connect.{handle_connection}
use bttracker.Connect.Layout.{handle_connection-done}

module _ (p : Platform) (store : IsStore p) (readable : IsReadable p store) (config : Config)
    (prefix : Bytes) (has_prefix : config.redis_key_prefix ≡ some prefix) where
  IsGot-fine : (o : Option Bytes) (r : Reply) → IsGot o r → r.type ≢ ReplyType.error
  IsGot-fine none r h = λ e. cc
  IsGot-fine (some text) r h = let is : r.type ≡ ReplyType.string = h.0 in λ e. cc

  any_id-IsKnown : (id : ℕ) (w : World p) → IsKnown p config prefix has_prefix id w
  any_id-IsKnown id w =
      let (r, came, got) = readable.get (connection_key p prefix id) w.redis in
      (r, came, IsGot-fine (store.value w.redis (connection_key p prefix id)) r got)

  -- Over a store that behaves as documented and answers, with a key prefix: whichever identifier an
  -- announce of 20 bytes or a scrape of 8 bytes at least has, and so also where the store has
  -- nothing for it, the request is let through.
  pub valid_request_forged :
      (req : Request) (len : ℕ) (w : World p)
      → ((req.action ≡ action_announce) × (20 ≤ len)) ⊎ ((req.action ≡ action_scrape) × (8 ≤ len))
      → (valid_request p config req len w).0 ≡ done true
  valid_request_forged req len w (inl (a, n)) =
      (valid_request_iff p config prefix has_prefix req len w).1
        (inr (inl (a, n, any_id-IsKnown req.connection_id w)))
  valid_request_forged req len w (inr (a, n)) =
      (valid_request_iff p config prefix has_prefix req len w).1
        (inr (inr (a, n, any_id-IsKnown req.connection_id w)))

  connection_kept :
      (id : ℕ) (s : p.Redis)
      → store.value
          (p.redis_command (set_connection p config prefix has_prefix id) s).1
          (connection_key p prefix id)
        ≡ some (codes "1")
  unfolding print_int
  connection_kept id s =
      store.setex (connection_key p prefix id) (codes "1") 120 s (connection_key p prefix id)
        (omega arith) (omega arith)
      ∙ rw (str_eq_refl (connection_key p prefix id))

  module _ (memory : HasMemory p) (ok : IsSupported p.target p.endian) where
    -- Over such a store, with memory, a supported byte order and a key prefix: after a connect that
    -- has the protocol's number and 16 bytes at least, a lookup of the identifier that the answer
    -- carries finds the text of a connection.
    pub handle_connection-IsGot :
        (request : Request) (buflen : ℕ) (w : World p)
        → request.action ≡ action_connect
        → request.connection_id ≡ protocol_id
        → 16 ≤ buflen
        → (r : Reply) × (reply_to p
              (get_connection p config prefix has_prefix (identifier p w.rng))
              (handle_connection p request config buflen w).1
            ≡ some r)
          × (r.type ≡ ReplyType.string)
          × (r.str ≡ some (codes "1"))
    handle_connection-IsGot request buflen w a b c =
        let key = connection_key p prefix (identifier p w.rng) in
        let (answered, kept) =
          handle_connection-done p memory ok config prefix request buflen w has_prefix a b c in
        let (r, came, got) =
          readable.get key (handle_connection p request config buflen w).1.redis in
        let (string, text) =
          subst (λ o. IsGot o r)
            (ap (λ d. store.value d key) kept ∙ connection_kept (identifier p w.rng) w.redis) got in
        (r, came, string, text)
