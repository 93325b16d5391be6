-- ===== src/Start/Total.antt =====
-- Panics in the start of the daemon.
use dnsliar_rs.Base.{
  ℕ, String, ◌≡◌, subst, Bool, true, false, Option, none, some, List, [], ◌∷◌, All,
}
use dnsliar_rs.Exec.{ok-injective, Outcome, ok, err, panic, Exec, Reply, value, fault, pure, ◌>>=◌}
use dnsliar_rs.Exec.Safe.{Safe, IsHandled, Safe-bind, Safe-bind_of, Safe-pure, Safe-redis}
use dnsliar_rs.Dns.{Types}
use dnsliar_rs.Env.{Env}
use dnsliar_rs.Filtering.{FilteringConfig}
use dnsliar_rs.Base.Text.{◌<>◌}
use dnsliar_rs.Config.{reply_option, and_maybe, parse_binds, build_resolver, build_binds}
use dnsliar_rs.Config.Sinks.{setup_filtering-Safe, members-Safe}
use dnsliar_rs.Config.Lists.{nonempty, IsKnown, parse_binds-nonempty}
use dnsliar_rs.Config.Binds.{setup_binds-ok}
use dnsliar_rs.Signals.{initial_config}
use dnsliar_rs.Config.Confile.{Exits, returned, exited, read_confile}
use dnsliar_rs.Resolver.Build.{ResolverOpts, ResolverSetup}
use dnsliar_rs.RedisMod.{build_manager}
use dnsliar_rs.Start.{
  System, or_exit, finish, serve, with_binds, with_resolver, connected, with_signals, configured,
  main,
}

build_manager-Safe :
    {T : Types} {SocketAddr : Type 0} (system : System T SocketAddr) (redis_address : String)
    → Safe (build_manager system.open_client system.get_connection_manager redis_address)
unfolding build_manager
build_manager-Safe system redis_address = Safe-bind _ _ (Safe-redis _) (λ u. Safe-redis _)

module _ {T : Types} {SocketAddr : Type 0} (env : Env T) (system : System T SocketAddr)
    (daemon_id : String) where
  or_exit-Safe :
      (reply : Reply T.Fault (Unit {0})) (code : ℕ) (rest : Exec T.Fault T.World ℕ)
      → Safe rest
      → Safe (or_exit env system daemon_id reply code rest)
  or_exit-Safe (value u) code rest h = h
  or_exit-Safe (fault f) code rest h = Safe-pure code

  finish-Safe : Safe (finish env system daemon_id)
  finish-Safe = record {
    at = λ w.
        (or_exit-Safe (system.signals_task (system.close_signals w)).0 70 (pure 0) (Safe-pure 0)).at
          _;
  }

  serve-Safe :
      (setup : ResolverSetup SocketAddr) (config : FilteringConfig)
      (sockets : List (String × SocketAddr))
      → Safe (serve env system daemon_id setup config sockets)
  serve-Safe setup config sockets = record {
    at = λ w.
        (or_exit-Safe (system.block_until_done setup config sockets w).0 70
            (finish env system daemon_id) finish-Safe).at
          _;
  }

  -- Binds of known protocols only.
  abbrev AllKnown : Option (List (String × SocketAddr)) → Type 0
  AllKnown none = Unit
  AllKnown (some binds) = All IsKnown binds

  with_binds-Safe :
      (setup : ResolverSetup SocketAddr) (config : FilteringConfig)
      (o : Option (List (String × SocketAddr)))
      → AllKnown o
      → Safe (with_binds env system daemon_id setup config o)
  with_binds-Safe setup config none h = record { at = λ w. tt }
  with_binds-Safe setup config (some binds) h = record {
    at = λ w.
        rw
          (setup_binds-ok {Fault = T.Fault} system.bind binds
            (record { registered = []; world = w }) h)
          ((serve-Safe setup config _).at _);
  }

  nonempty-AllKnown :
      (binds : List (String × SocketAddr)) → All IsKnown binds → AllKnown (nonempty binds)
  nonempty-AllKnown [] h = tt
  nonempty-AllKnown (b ∷ bs) h = h

  read-AllKnown :
      (o : Option (List String))
      → AllKnown (and_maybe env daemon_id system.parse_socket o (parse_binds system.parse_socket))
  read-AllKnown none = tt
  read-AllKnown (some recvd) =
      let (kept, known) = parse_binds-nonempty system.parse_socket recvd in
      rw kept (nonempty-AllKnown _ known)

  build_binds-AllKnown :
      (w : T.World) (o : Option (List (String × SocketAddr)))
      → (build_binds env daemon_id system.parse_socket w).0 ≡ ok o
      → AllKnown o
  unfolding build_binds ◌>>=◌
  build_binds-AllKnown w o e = subst AllKnown (ok-injective e) (
      read-AllKnown
        (reply_option env daemon_id (env.redis.smembers ("DBL;binds;" <> daemon_id) w).0))

  build_binds-Safe : Safe (build_binds env daemon_id system.parse_socket)
  unfolding build_binds
  build_binds-Safe = Safe-bind _ _ (members-Safe env daemon_id _) (λ recvd. Safe-pure _)

  build_resolver-Safe :
      (opts : ResolverOpts) → Safe (build_resolver env daemon_id system.parse_socket opts)
  unfolding build_resolver
  build_resolver-Safe opts = Safe-bind _ _ (members-Safe env daemon_id _) (λ recvd. Safe-pure _)

  with_resolver-Safe :
      (o : Option (ResolverSetup SocketAddr)) → Safe (with_resolver env system daemon_id o)
  with_resolver-Safe none = Safe-pure 78
  with_resolver-Safe (some setup) =
      Safe-bind _ _ (setup_filtering-Safe env daemon_id) (λ filtering_data.
        Safe-bind_of _ _ build_binds-Safe (λ w binds e.
          with_binds-Safe setup (initial_config filtering_data) binds
            (build_binds-AllKnown w binds e)))

  connected-Safe :
      (r : Outcome T.Fault (Unit {0})) → IsHandled r → Safe (connected env system daemon_id r)
  connected-Safe (ok u) h =
      Safe-bind _ _ (build_resolver-Safe system.default_opts) with_resolver-Safe
  connected-Safe (err e) h = Safe-pure 69
  connected-Safe panic h = elim h [ ]

  with_signals-Safe :
      (redis_address : String) (registered : Bool)
      → Safe (with_signals env system daemon_id redis_address registered)
  with_signals-Safe redis_address false = record { at = λ w. tt }
  with_signals-Safe redis_address true = record {
    at = λ w. (connected-Safe _ ((build_manager-Safe system redis_address).at w)).at _;
  }

module _ {T : Types} {SocketAddr : Type 0} (env : Env T) (system : System T SocketAddr) where
  configured-Safe : (c : Exits (String × String)) → Safe (configured env system c)
  configured-Safe (exited code) = record { at = λ w. tt }
  configured-Safe (returned (daemon_id, redis_address)) = record {
    at = λ w. (with_signals-Safe env system daemon_id redis_address _).at _;
  }

  -- The start of the daemon does not panic, whatever its configuration file, Redis, the system and
  -- the two tasks answer: the sinks are there when they are read, and no bind has a protocol that
  -- `setup_binds` does not know.
  pub main-Safe : Safe (main env system)
  unfolding main
  main-Safe = record {
    at = λ w.
        (configured-Safe
            (read_confile system.read_to_string system.parse_confile "dnsblrsd.conf" w).0).at
          _;
  }
