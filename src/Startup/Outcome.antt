-- ===== src/Startup/Outcome.antt =====
-- Every way in which the start ends.
use bakpia_run.Prelude.{
  ℕ, ◌≡◌, ◌⊎◌, inl, inr, arith, true, false, Bool-cases, List, [], ◌∷◌, ◌++◌, All,
}
use bakpia_run.Text.Decimal.{address}
use bakpia_run.Config.{Config, PoolConfig}
use bakpia_run.Worker.{Os}
use bakpia_run.Server.{start_pool, start_state}
use bakpia_run.Routing
use bakpia_run.Routing.{Made, add_pools}
use bakpia_run.Routing.Making.{directory, MadeFrom, all_made, stopped_at, make_pools-MadeFrom}
use bakpia_run.WorkerPool.{WorkerPool}
use bakpia_run.Startup.{
  Host, binds_https, sets_up_https, Boot, exits, panics, panics_with, panics_started, serves,
  after_pools, boot_with,
}

-- The ports of the configuration are taken.
abbrev pub IsBound : Host → Config → Type 0
IsBound h c = (h.binds (address c.server.host c.server.port) ≡ true) × (binds_https h c ≡ true)

sets_up_https-fails :
    (h : Host) (c : Config)
    → sets_up_https h c ≡ false
    → (c.server.tls.enabled ≡ true)
      × ((h.parses_address (address c.server.host c.server.https_port) ≡ false)
          ⊎ (h.loads_tls c.server.tls.cert_path c.server.tls.key_path ≡ false))
sets_up_https-fails h c e = elim (Bool-cases c.server.tls.enabled) [
  | inr off ↦ absurd (ground (arith, e, off))
  | inl on ↦ elim (Bool-cases (h.parses_address (address c.server.host c.server.https_port))) [
    | inr bad ↦ (on, inl bad)
    | inl fine ↦ (on, inr (ground (arith, e, on, fine)))
  ]
]

module _ {F V : Type 0} (h : Host) (os : PoolConfig → ℕ → Os) (now : ℕ) where
  -- How the start of a configuration ends.
  pub data Booted (c : Config) : Boot F V → Type 0 where
    port_in_use :
        (h.binds (address c.server.host c.server.port) ≡ false) ⊎ (binds_https h c ≡ false)
        → Booted c (exits 1)
    no_directory : IsBound h c → h.creates_dir c.socket_directory ≡ false → Booted c panics
    no_pool_directory :
        IsBound h c
        → h.creates_dir c.socket_directory ≡ true
        → (before : List PoolConfig) (p : PoolConfig) (later : List PoolConfig)
        → c.pools ≡ before ++ (p ∷ later)
        → All (λ q. directory h.creates_dir c q ≡ true) before
        → directory h.creates_dir c p ≡ false
        → Booted c (
            panics_with
              (add_pools (start_pool os) c (record { pools = []; routing_table = [] }) before))
    no_https :
        IsBound h c
        → h.creates_dir c.socket_directory ≡ true
        → All (λ p. directory h.creates_dir c p ≡ true) c.pools
        → c.server.tls.enabled ≡ true
        → (h.parses_address (address c.server.host c.server.https_port) ≡ false)
          ⊎ (h.loads_tls c.server.tls.cert_path c.server.tls.key_path ≡ false)
        → Booted c (panics_started (start_state (Routing.new (start_pool os) c) now c))
    serving :
        IsBound h c
        → h.creates_dir c.socket_directory ≡ true
        → All (λ p. directory h.creates_dir c p ≡ true) c.pools
        → sets_up_https h c ≡ true
        → Booted c (serves c.server.tls.enabled (start_state (Routing.new (start_pool os) c) now c))

  after_pools-Booted :
      (c : Config) (o : Made WorkerPool)
      → MadeFrom h.creates_dir
          (start_pool os)
          c
          (record { pools = []; routing_table = [] })
          c.pools
          o
      → IsBound h c
      → h.creates_dir c.socket_directory ≡ true
      → Booted c (after_pools h c now o)
  unfolding after_pools Routing.new
  after_pools-Booted c _ (all_made fine) bound dir = elim (Bool-cases (sets_up_https h c)) [
    | inl up ↦ rw (up, after_pools) (serving bound dir fine up)
    | inr down ↦
        let (on, why) = sets_up_https-fails h c down in
        rw (down, after_pools) (no_https bound dir fine on why)
  ]
  after_pools-Booted c _ (stopped_at before p later same fine fails) bound dir =
      no_pool_directory bound dir before p later same fine fails

  -- The start of any configuration: a port in use ends it with exit code 1, and a common socket
  -- directory that cannot be made ends it in a panic before any worker is started. A pool's own
  -- directory that cannot be made ends it in a panic, with the pools before that one started and none
  -- behind it. If
  -- HTTPS is enabled and its address is not numeric or its certificate cannot be loaded, the start
  -- panics with all pools started. Otherwise the server serves, with the pools that started.
  pub boot_with-Booted : (c : Config) → Booted c (boot_with h c os now)
  unfolding boot_with Routing.make
  boot_with-Booted c = elim (Bool-cases (h.binds (address c.server.host c.server.port))) [
    | inr bad ↦ rw (bad, boot_with) (port_in_use (inl bad))
    | inl http ↦ elim (Bool-cases (binds_https h c)) [
      | inr bad ↦ rw (http, boot_with, bad) (port_in_use (inr bad))
      | inl https ↦ elim (Bool-cases (h.creates_dir c.socket_directory)) [
        | inr bad ↦ rw (http, boot_with, https, bad) (no_directory (http, https) bad)
        | inl dir ↦
            rw (http, boot_with, https, dir)
              (after_pools-Booted c _
                (make_pools-MadeFrom h.creates_dir (start_pool os) c _ c.pools) (http, https) dir)
      ]
    ]
  ]
