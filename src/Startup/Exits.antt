-- ===== src/Startup/Exits.antt =====
-- How the start ends: with the loop, or with one of two exit codes.
use mathlib.Core.Logic.{◌↔◌}
use mathlib.Core.Path.{subst}
use bttracker.Common.{
  ℕ, ◌≡◌, ◌⊎◌, inl, inr, refl, sym, ap, ◌∙◌, true, false, some, List, [], ◌∷◌, Option-cases,
  Bool-cases,
}
use bttracker.Memory.{Bytes}
use bttracker.Data.{Config, config_error, network_error}
use bttracker.Exec.{Outcome, done, exit}
use bttracker.Conf.{Load, refused, crashed, loaded, load_config}
use bttracker.Startup.{
  Os, new_request_processor_pool, Started, or_exit, portstr, getaddrinfo, socket, bind,
  ipv4_udp_sock, bind_or_exit, serve, main,
}

module _ (os : Os) where
  -- The calls that open the socket all succeed, one after the other.
  abbrev pub Opens : Config → os.State → Started os → Type 0
  Opens config n started =
      (addrinfo : os.AddrInfo) × (sock : ℕ) × ((os.getaddrinfo config.bttracker_addr
          (portstr os config.bttracker_port) n).0
        ≡ some addrinfo)
      × ((os.socket addrinfo
            (os.getaddrinfo config.bttracker_addr (portstr os config.bttracker_port) n).1).0
          ≡ some sock)
      × ((os.bind sock addrinfo
            (os.socket addrinfo
              (os.getaddrinfo config.bttracker_addr (portstr os config.bttracker_port) n).1).1).0
          ≡ true)
      × (started ≡ record {
        config = config;
        pool = record {
          max_idle_time = (new_request_processor_pool config).max_idle_time;
          max_threads = config.thread_max;
          exclusive = true;
        };
        in_sock = sock;
        in_addrinfo = addrinfo;
      })

  bind_cases :
      (config : Config) (sock : ℕ) (addrinfo : os.AddrInfo) (n : os.State)
      → ((os.bind sock addrinfo n).0 ≡ true)
          × ((bind_or_exit os config sock addrinfo n).0
              ≡ done (record {
                config = config;
                pool = record {
                  max_idle_time = (new_request_processor_pool config).max_idle_time;
                  max_threads = config.thread_max;
                  exclusive = true;
                };
                in_sock = sock;
                in_addrinfo = addrinfo;
              }))
        ⊎ ((os.bind sock addrinfo n).0 ≡ false)
          × ((bind_or_exit os config sock addrinfo n).0 ≡ exit network_error)
  unfolding bind_or_exit bind new_request_processor_pool
  bind_cases config sock addrinfo n = elim (Bool-cases (os.bind sock addrinfo n).0) [
    | inl e ↦ inl (e, rw e)
    | inr e ↦ inr (e, rw e)
  ]

  -- The loop is reached with a socket that every call succeeded on, or the start exits.
  serve_cases :
      (config : Config) (n : os.State)
      → ((started : Started os) × Opens config n started
          × ((serve os (loaded config) n).0 ≡ done started))
        ⊎ ((serve os (loaded config) n).0 ≡ exit network_error)
  unfolding serve ipv4_udp_sock getaddrinfo socket or_exit
  serve_cases config n =
      let service = portstr os config.bttracker_port in
      let n1 = (os.getaddrinfo config.bttracker_addr service n).1 in
      elim (Option-cases (os.getaddrinfo config.bttracker_addr service n).0) [
        | inl e ↦ inr (rw e)
        | inr (addrinfo, e) ↦ elim (Option-cases (os.socket addrinfo n1).0) [
          | inl e' ↦ inr (rw (e, e'))
          | inr (sock, e') ↦ elim (bind_cases config sock addrinfo (os.socket addrinfo n1).1) [
            | inl (b, opened) ↦ inl (_, (addrinfo, sock, e, e', b, refl), rw (e, e', opened))
            | inr (b, failed) ↦ inr (rw (e, e', failed))
          ]
        ]
      ]

  done_injective : {a b : Started os} → ◌≡◌ {A = Outcome (Started os)} (done a) (done b) → a ≡ b
  done_injective h = cc

  -- One argument, a configuration that loads, and a socket that opens for it.
  abbrev pub Starts : List Bytes → os.State → Started os → Type 0
  Starts argv n started =
      (name : Bytes) × (path : Bytes) × (config : Config) × (argv ≡ name ∷ path ∷ [])
      × (load_config (os.key_file path) ≡ loaded config)
      × Opens config n started

  serve-Opens :
      (config : Config) (n : os.State) (started : Started os)
      → Opens config n started
      → (serve os (loaded config) n).0 ≡ done started
  unfolding serve ipv4_udp_sock getaddrinfo socket or_exit bind_or_exit bind
  serve-Opens config n started (addrinfo, sock, e, e', b, is) = rw (e, e', b, is)

  serve_done :
      (load : Load) (n : os.State) (started : Started os)
      → (serve os load n).0 ≡ done started
      → (config : Config) × (load ≡ loaded config) × Opens config n started
  unfolding serve
  serve_done refused n started e = absurd cc
  serve_done crashed n started e = absurd cc
  serve_done (loaded config) n started e = elim (serve_cases config n) [
    | inl (started', opens, e') ↦
        (config, refl, subst (Opens config n) (done_injective (sym e' ∙ e)) opens)
    | inr e' ↦ absurd cc
  ]

  -- The start reaches the loop exactly when one argument names a configuration that loads and the
  -- address, the socket and the binding are all given for it, and then with that configuration, its
  -- pool, and that socket.
  pub main-Starts :
      (argv : List Bytes) (n : os.State) (started : Started os)
      → ((main os argv n).0 ≡ done started) ↔ Starts argv n started
  unfolding main
  main-Starts [] n started = (λ e. absurd cc, λ (name', path', config, is, load, opens). absurd cc)
  main-Starts (name ∷ []) n started =
      (λ e. absurd cc, λ (name', path', config, is, load, opens). absurd cc)
  main-Starts (name ∷ path ∷ []) n started = (
    λ e.
        let (config, is, opens) = serve_done (load_config (os.key_file path)) n started e in
        (name, path, config, refl, is, opens),
    λ (name', path', config, is, load, opens).
        ap (λ l. (serve os l n).0)
          (ap (λ q. load_config (os.key_file q)) (let p : path ≡ path' = cc in p) ∙ load)
        ∙ serve-Opens config n started opens,
  )
  main-Starts (name ∷ path ∷ extra ∷ more) n started =
      (λ e. absurd cc, λ (name', path', config, is, load, opens). absurd cc)

  serve_config_error :
      (load : Load) (n : os.State)
      → (serve os load n).0 ≡ exit config_error
      → (serve os load n).1 ≡ n
  unfolding serve
  serve_config_error refused n e = refl
  serve_config_error crashed n e = absurd cc
  serve_config_error (loaded config) n e = elim (serve_cases config n) [
    | inl (started, opens, e') ↦ absurd cc
    | inr e' ↦ absurd cc
  ]

  -- A start that ends with the code of a configuration error asked nothing of the network.
  pub main_config_error :
      (argv : List Bytes) (n : os.State)
      → (main os argv n).0 ≡ exit config_error
      → (main os argv n).1 ≡ n
  unfolding main
  main_config_error [] n e = refl
  main_config_error (name ∷ []) n e = refl
  main_config_error (name ∷ path ∷ []) n e = serve_config_error (load_config (os.key_file path)) n e
  main_config_error (name ∷ path ∷ extra ∷ more) n e = refl
