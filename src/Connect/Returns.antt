-- ===== src/Connect/Returns.antt =====
-- With memory, a supported byte order and a key prefix, a connect is served to its end.
use bttracker.Common.{ℕ, ◌≡◌, some, none}
use bttracker.Memory.{Bytes}
use bttracker.ByteOrder.{IsSupported}
use bttracker.Data.{Config, Request}
use bttracker.Platform.{Platform}
use bttracker.Platform.Laws.{HasMemory}
use bttracker.Exec.Returns.{Returns, Returns-pure, Gives-if, Gives-then}
use bttracker.Random.Identifiers.{random_int64-done}
use bttracker.Redis.Returns.{insert_connection-Returns}
use bttracker.Handshake.Returns.{valid_request-Returns}
use bttracker.Connect.{handle_connection}
use bttracker.Connect.Layout.{serialize-done}

module _ (p : Platform) (memory : HasMemory p) (ok : IsSupported p.target p.endian) where
  pub handle_connection-Returns :
      (config : Config) (prefix : Bytes)
      → config.redis_key_prefix ≡ some prefix
      → (request : Request) (buflen : ℕ) → Returns (handle_connection p request config buflen)
  unfolding handle_connection
  handle_connection-Returns config prefix has_prefix request buflen =
      Gives-then _ _ (valid_request-Returns p config prefix has_prefix request buflen) (λ valid.
        Gives-if valid _ _
          (Gives-then _ _ (record { at = λ w. (_, (random_int64-done p w).0, tt) })
            (λ id. Gives-then _ _ (insert_connection-Returns p config prefix has_prefix id) (λ _.
              Gives-then _ _ (record { at = λ w. (_, (serialize-done p memory ok _ w).0, tt) })
                (λ resp. Returns-pure _))))
          (Returns-pure none))
