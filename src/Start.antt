-- ===== src/Start.antt =====
-- dnsblrsd/src/main.rs: the start of the daemon, and its exit codes. The logging is not modelled.
-- What the system and the crates do is an argument: the file, the registration of the signals, the
-- connection to Redis, the sockets, and the two tasks that are waited for.
pub mod Total
use dnsliar_rs.Base.{ℕ, String, Bool, true, false, Option, none, some, List, [], if◌then◌else◌}
use dnsliar_rs.Exec.{crash, Outcome, ok, err, panic, Exec, Reply, value, fault, Call, pure, ◌>>=◌}
use dnsliar_rs.Dns.{Types}
use dnsliar_rs.Env.{Env}
use dnsliar_rs.Filtering.{FilteringConfig}
use dnsliar_rs.Config.{Server, setup_filtering, build_resolver, build_binds, setup_binds}
use dnsliar_rs.Config.Confile.{Confile, Exits, returned, exited, read_confile}
use dnsliar_rs.Resolver.Build.{ResolverOpts, ResolverSetup}
use dnsliar_rs.RedisMod.{build_manager}
use dnsliar_rs.Signals.{Signal, instantiate, initial_config}

pub record System (T : Types) (SocketAddr : Type 0) : Type 0 where
  pub read_to_string : String → Call T.World T.Fault String
  pub parse_confile : String → Reply T.Fault Confile
  pub signals_new : List Signal → Call T.World T.Fault (Unit {0})
  pub open_client : String → Call T.World T.Fault (Unit {0})
  pub get_connection_manager : Call T.World T.Fault (Unit {0})
  -- `ResolverOpts::default()`
  pub default_opts : ResolverOpts
  pub parse_socket : String → Option SocketAddr
  pub bind : String → SocketAddr → T.World → Bool × T.World
  -- the server, with its resolver, and the signals run on the configuration, until they end
  pub block_until_done :
      ResolverSetup SocketAddr
      → FilteringConfig
      → List (String × SocketAddr)
      → Call T.World T.Fault (Unit {0})
  -- `Handle::close` of the signals
  pub close_signals : T.World → T.World
  pub signals_task : Call T.World T.Fault (Unit {0})

module _ {T : Types} {SocketAddr : Type 0} (env : Env T) (system : System T SocketAddr)
    (daemon_id : String) where
  -- A call whose failure ends the process with a code.
  abbrev pub or_exit :
      Reply T.Fault (Unit {0}) → ℕ → Exec T.Fault T.World ℕ → Exec T.Fault T.World ℕ
  or_exit (value u) code rest = rest
  or_exit (fault f) code rest = pure code

  abbrev pub finish : Exec T.Fault T.World ℕ
  finish w =
      let (reply, w') = system.signals_task (system.close_signals w) in or_exit reply 70 (pure 0) w'

  module _ (setup : ResolverSetup SocketAddr) where
    abbrev pub serve : FilteringConfig → List (String × SocketAddr) → Exec T.Fault T.World ℕ
    serve config sockets w =
        let (reply, w') = system.block_until_done setup config sockets w in
        or_exit reply 70 finish w'

    abbrev after_binds :
        FilteringConfig
        → Outcome T.Fault (Unit {0})
        → Server T.World SocketAddr
        → Exec T.Fault T.World ℕ
    after_binds config (ok u) server w = serve config server.registered w
    after_binds config (err e) server w = (ok 71, w)
    after_binds config panic server w = (panic, w)

    abbrev pub with_binds :
        FilteringConfig → Option (List (String × SocketAddr)) → Exec T.Fault T.World ℕ
    with_binds config none w = (ok 78, w)
    with_binds config (some binds) w =
        let (result, server) =
          setup_binds {Fault = T.Fault} system.bind binds (record { registered = []; world = w }) in
        after_binds config result server server.world

  abbrev pub with_resolver : Option (ResolverSetup SocketAddr) → Exec T.Fault T.World ℕ
  with_resolver none = pure 78
  with_resolver (some setup) = setup_filtering env daemon_id >>= λ filtering_data.
      build_binds env daemon_id system.parse_socket >>= λ binds.
      with_binds setup (initial_config filtering_data) binds

  -- Past the connection to Redis.
  abbrev pub connected : Outcome T.Fault (Unit {0}) → Exec T.Fault T.World ℕ
  connected (ok u) =
      build_resolver env daemon_id system.parse_socket system.default_opts >>= with_resolver
  connected (err e) = pure 69
  connected panic = crash

  abbrev pub with_signals : String → Bool → Exec T.Fault T.World ℕ
  with_signals redis_address false w = (ok 71, w)
  with_signals redis_address true w =
      let (manager, w') =
        build_manager system.open_client system.get_connection_manager redis_address w in
      connected manager w'

module _ {T : Types} {SocketAddr : Type 0} (env : Env T) (system : System T SocketAddr) where
  abbrev pub configured : Exits (String × String) → Exec T.Fault T.World ℕ
  configured (exited code) w = (ok code, w)
  configured (returned (daemon_id, redis_address)) w =
      let (registered, w') = instantiate system.signals_new w in
      with_signals env system daemon_id redis_address registered w'

  -- The exit code.
  unfoldable pub main : Exec T.Fault T.World ℕ
  unfolding read_confile instantiate build_manager setup_filtering build_resolver build_binds
      setup_binds initial_config
  main w =
      let (confile, w') =
        read_confile system.read_to_string system.parse_confile "dnsblrsd.conf" w in
      configured confile w'
