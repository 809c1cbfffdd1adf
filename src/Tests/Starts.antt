-- ===== src/Tests/Starts.antt =====
-- The start of the program, with and without an argument.
use mathlib.Core.Logic.{◌↔◌}
use bttracker.Common.{ℕ, ◌+◌, ◌*◌, ◌-◌, ◌^◌, ◌≡◌, refl, true, some, List, [], ◌∷◌}
use bttracker.Memory.{Bytes}
use bttracker.Text.{codes}
use bttracker.Data.{config_error}
use bttracker.Conf.{fill}
use bttracker.Exec.{done, exit}
use bttracker.Startup.{Os, Started, main}
use bttracker.Startup.Exits.{Starts, main-Starts}
use bttracker.Tests.Cases.{key_file}

-- Every call succeeds, and the state counts them.
abbrev os : Os
os = record {
  State = ℕ;
  AddrInfo = ℕ;
  key_file = λ path. some (key_file (some (codes "INFO")));
  getaddrinfo = λ addr service n. (some 7, n + 1);
  socket = λ addrinfo n. (some 3, n + 1);
  bind = λ sock addrinfo n. (true, n + 1);
}

abbrev argv : List Bytes
argv = codes "bttracker" ∷ codes "bttracker.conf" ∷ []

abbrev started : Started os
started = record {
  config = fill (key_file (some (codes "INFO"))) (codes "INFO") (codes "INFO");
  pool = record { max_idle_time = 70000 * 1000; max_threads = 70000 - 2 ^ 16; exclusive = true };
  in_sock = 3;
  in_addrinfo = 7;
}

main-Starts_example : ((main os argv 0).0 ≡ done started) ↔ Starts os argv 0 started
main-Starts_example = main-Starts os argv 0 started

alone : (main os (codes "bttracker" ∷ []) 0).0 ≡ exit config_error
unfolding main
alone = refl
