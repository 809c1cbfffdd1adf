-- ===== src/Startup.antt =====
-- The start of src/bttracker.c: the command line, the configuration, the pool and the bound socket,
-- with `bt_ipv4_udp_sock` of src/net.c and `bt_new_request_processor_pool` of src/pool.c. GLib's
-- loader and the calls of the operating system are parameters.
pub mod Ports
pub mod Exits
use bttracker.Common.{
  ℕ, ◌*◌, ◌%◌, ◌^◌, Bool, true, false, Option, none, some, List, [], ◌∷◌, if◌then◌else◌,
}
use bttracker.Memory.{Bytes}
use bttracker.Text.{print_int}
use bttracker.Data.{Config, ExitCode, config_error, network_error}
use bttracker.Exec.{Fault, null_pointer, Outcome, done, fault, exit}
use bttracker.Conf.{KeyFile, Load, refused, crashed, loaded, load_config}

-- `getaddrinfo` is called with the hints for a datagram socket of IPv4 to listen on; `none` is any
-- result but 0. `socket` gives `none` for -1, `bind` `false`.
pub record Os : Type 1 where
  pub State : Type 0
  pub AddrInfo : Type 0
  pub key_file : Bytes → Option KeyFile
  pub getaddrinfo : Option Bytes → Bytes → State → Option AddrInfo × State
  pub socket : AddrInfo → State → Option ℕ × State
  pub bind : ℕ → AddrInfo → State → Bool × State

-- An action on the state of the operating system.
abbrev pub N : Type 0 → Type 0 → Type 0
N S A = S → Outcome A × S

abbrev pub continue : {S A B : Type 0} → Outcome A → S → (A → N S B) → Outcome B × S
continue (done a) n f = f a n
continue (fault x) n f = (fault x, n)
continue (exit c) n f = (exit c, n)

infixl 5 ◌>>=◌
abbrev pub ◌>>=◌ : {S A B : Type 0} → N S A → (A → N S B) → N S B
◌>>=◌ m f n = continue (m n).0 (m n).1 f

-- What `bt_new_request_processor_pool` asks of GLib: the idle time in milliseconds is a `guint`.
pub record ThreadPool : Type 0 where
  pub max_idle_time : ℕ
  pub max_threads : ℕ
  pub exclusive : Bool

pub new_request_processor_pool : Config → ThreadPool
new_request_processor_pool config = record {
  max_idle_time = config.thread_max_idle_time * 1000 % 2 ^ 32;
  max_threads = config.thread_max;
  exclusive = true;
}

-- What the loop of the program starts with.
pub record Started (os : Os) : Type 0 where
  pub config : Config
  pub pool : ThreadPool
  pub in_sock : ℕ
  pub in_addrinfo : os.AddrInfo

-- An exit where a call fails.
or_exit : {S A : Type 0} → ExitCode → Option A → N S A
or_exit c none n = (exit c, n)
or_exit c (some a) n = (done a, n)

module _ (os : Os) where
  -- `sprintf(portstr, "%d", port)`
  unfoldable pub portstr : ℕ → Bytes
  portstr port = print_int port

  getaddrinfo : Option Bytes → Bytes → N os.State (Option os.AddrInfo)
  getaddrinfo addr service n = let (info, n') = os.getaddrinfo addr service n in (done info, n')

  socket : os.AddrInfo → N os.State (Option ℕ)
  socket addrinfo n = let (sock, n') = os.socket addrinfo n in (done sock, n')

  bind : ℕ → os.AddrInfo → N os.State Bool
  bind sock addrinfo n = let (bound, n') = os.bind sock addrinfo n in (done bound, n')

  pub ipv4_udp_sock : Option Bytes → ℕ → N os.State (ℕ × os.AddrInfo)
  unfolding or_exit portstr getaddrinfo socket
  ipv4_udp_sock addr port = do
    info ← getaddrinfo addr (portstr port)
    addrinfo ← or_exit network_error info
    opened ← socket addrinfo
    sock ← or_exit network_error opened
    λ n. (done (sock, addrinfo), n)

  bind_or_exit : Config → ℕ → os.AddrInfo → N os.State (Started os)
  unfolding bind new_request_processor_pool
  bind_or_exit config sock addrinfo = do
    bound ← bind sock addrinfo
    if bound
        then (λ n. (
          done (record {
            config = config;
            pool = new_request_processor_pool config;
            in_sock = sock;
            in_addrinfo = addrinfo;
          }),
          n,
        ))
        else (λ n. (exit network_error, n))

  -- What follows the loading of the configuration.
  serve : Load → N os.State (Started os)
  unfolding ipv4_udp_sock bind_or_exit
  serve refused n = (exit config_error, n)
  serve crashed n = (fault null_pointer, n)
  serve (loaded config) n =
      (ipv4_udp_sock config.bttracker_addr config.bttracker_port >>= λ (sock, addrinfo).
      bind_or_exit config sock addrinfo)
        n

  -- `argv` has the name of the program first; the start ends where the loop begins.
  unfoldable pub main : List Bytes → N os.State (Started os)
  unfolding serve
  main (name ∷ path ∷ []) = serve (load_config (os.key_file path))
  main [] = λ n. (exit config_error, n)
  main (name ∷ []) = λ n. (exit config_error, n)
  main (name ∷ path ∷ extra ∷ more) = λ n. (exit config_error, n)
