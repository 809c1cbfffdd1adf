-- ===== src/Scrape/Returns.antt =====
-- With memory, a key prefix and a reply to each queued command, a scrape whose hashes fit the array is
-- served to its end.
use bttracker.Common.{ℕ, zero, suc, ◌+◌, ◌≤◌, ◌≡◌, true, false, Option, some, none, List, [], ◌∷◌}
use bttracker.Memory.{Bytes}
use bttracker.Data.{Config, Request, TorrentStats}
use bttracker.Net.Scrapes.{read_scrape_fits}
use bttracker.Platform.{Platform}
use bttracker.Platform.Laws.{HasMemory, HasReplies}
use bttracker.Exec.{malloc}
use bttracker.Exec.Returns.{
  Returns, Returns-pure, Gives-if, Gives-then, Gives-bind, Gives-or_fault, stack_object-Gives,
  IsSizedBlock, Gives,
}
use bttracker.Hex.Runs.{bytearray_to_hexarray-done}
use bttracker.Redis.Returns.{info_hash_blacklisted-Returns, get_torrent_stats-Returns}
use bttracker.Handshake.Returns.{valid_request-Returns}
use bttracker.ErrorReply.Layout.{send_error_layout}
use bttracker.Scrape.{
  blacklisted_text, stats_of_bytes, pointed_stats, entry_stats, scrape_loop, scrape_response,
  handle_scrape,
}
use bttracker.Scrape.Layout.{serialize_scrape_response-done}

module _ (p : Platform) (memory : HasMemory p) (replies : HasReplies p) (config : Config)
    (prefix : Bytes) (has_prefix : config.redis_key_prefix ≡ some prefix) where
  abbrev IsSome : Option Bytes → Type 0
  IsSome none = ⊥
  IsSome (some b) = Unit

  malloc-Gives : (n : ℕ) → Gives IsSome (malloc p n)
  unfolding malloc
  malloc-Gives n = record {
    at = λ w. (some (memory.block n w.heap), rw (memory.malloc_block n w.heap), tt);
  }

  entry_stats-Returns : (hash : Bytes) → Returns (entry_stats p config hash)
  unfolding entry_stats pointed_stats
  entry_stats-Returns hash = Gives-bind IsSome _ _ (malloc-Gives 12) (elim [
    | none ↦ λ h. absurd h
    | some block ↦ λ h.
        get_torrent_stats-Returns p config prefix has_prefix replies hash (stats_of_bytes p block)
  ])

  scrape_loop-Returns :
      (info_hash : Bytes) (rounds i : ℕ) (before : List TorrentStats)
      → Returns (scrape_loop p config info_hash rounds i before)
  unfolding scrape_loop
  scrape_loop-Returns info_hash zero i before = Returns-pure _
  scrape_loop-Returns info_hash (suc rounds) i before =
      Gives-then _ _ (record { at = λ w. (_, bytearray_to_hexarray-done p memory _ w, tt) })
        (λ info_hash_str.
          Gives-then _ _ (info_hash_blacklisted-Returns p config prefix has_prefix info_hash_str)
            (elim [
              | true ↦ Returns-pure none
              | false ↦
                  Gives-then _ _ (entry_stats-Returns info_hash_str)
                    (λ stats. scrape_loop-Returns info_hash rounds (i + 1) (stats ∷ before))
            ]))

  scrape_response-Returns :
      (request : Request) (entries : Option (List TorrentStats))
      → Returns (scrape_response p request entries)
  unfolding scrape_response
  scrape_response-Returns request none = record {
    at = λ w.
        let (junk, size, sent) = send_error_layout p memory request w blacklisted_text in
        (_, sent, tt);
  }
  scrape_response-Returns request (some entries) = record {
    at = λ w. (_, (serialize_scrape_response-done p memory _ w).0, tt);
  }

  -- The copy stays in the array.
  pub handle_scrape-Returns :
      (request : Request) (buff : Bytes) (buflen : ℕ)
      → 16 ≤ buflen
      → buflen ≤ 176
      → Returns (handle_scrape p request config buff buflen)
  unfolding handle_scrape
  handle_scrape-Returns request buff buflen low high =
      Gives-then _ _ (valid_request-Returns p config prefix has_prefix request buflen) (λ valid.
        Gives-if valid _ _
          (Gives-bind (IsSizedBlock p memory 160) _ _ (stack_object-Gives p memory 160)
            (λ array size.
              let (r, reads) = read_scrape_fits p.target p.endian buff array buflen size low high in
              Gives-then _ _ (Gives-or_fault _ _ r reads tt) (λ scrape_request.
                Gives-then _ _
                  (scrape_loop-Returns scrape_request.info_hash scrape_request.info_hash_len 0 [])
                  (λ entries.
                    Gives-then _ _ (scrape_response-Returns request entries)
                      (λ resp. Returns-pure _)))))
          (Returns-pure none))
