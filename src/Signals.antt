-- ===== src/Signals.antt =====
-- dnsblrsd/src/signals.rs, and the shared configuration of dnsblrsd/src/main.rs. The logging is not
-- modelled.
pub mod Toggle
pub mod Reach
use dnsliar_rs.Base.{ℕ, String, Bool, true, false, Option, none, some, List, [], ◌∷◌, if◌then◌else◌}
use dnsliar_rs.Exec.{Outcome, ok, Exec, Reply, value, fault, Call, pure, ◌>>=◌, ◌>>◌}
use dnsliar_rs.Dns.{Types}
use dnsliar_rs.Env.{Env}
use dnsliar_rs.Filtering.{Data, FilteringConfig}
use dnsliar_rs.Config.{setup_filtering}

pub data Signal : Type 0 where
  sighup sigusr1 sigusr2 : Signal
  other : ℕ → Signal

-- `Result::ok`, of a call for its effect
abbrev pub is_ok : {Fault : Type 0} → Reply Fault (Unit {0}) → Bool
is_ok (value u) = true
is_ok (fault f) = false

-- The registration with the system is an argument.
unfoldable pub instantiate :
    {World Fault : Type 0} → (List Signal → Call World Fault (Unit {0})) → World → Bool × World
instantiate signals_new w =
    let (reply, w') = signals_new (sighup ∷ sigusr1 ∷ sigusr2 ∷ []) w in (is_ok reply, w')

-- The configuration in its `ArcSwap`, which every handler loads, and the outside world.
pub record Shared (T : Types) : Type 0 where
  pub config : FilteringConfig
  pub world : T.World

-- The configuration that `main` starts with.
unfoldable pub initial_config : Option Data → FilteringConfig
initial_config none = record { is_filtering = false; filtering_data = none }
initial_config (some d) = record { is_filtering = true; filtering_data = some d }

module _ {T : Types} where
  -- `load`, and `store`
  unfoldable pub load : Exec T.Fault (Shared T) FilteringConfig
  load shared = (ok shared.config, shared)

  unfoldable pub store : FilteringConfig → Exec T.Fault (Shared T) (Unit {0})
  store config shared = (ok tt, record shared { config = config })

module _ {T : Types} (env : Env T) (daemon_id : String) where
  unfoldable pub fetch : Exec T.Fault (Shared T) (Option Data)
  unfolding setup_filtering
  fetch shared =
      let (result, world) = setup_filtering env daemon_id shared.world in
      (result, record shared { world = world })

  unfoldable pub clear_cache : Exec T.Fault (Shared T) (Unit {0})
  clear_cache shared = (ok tt, record shared { world = env.hickory.clear_cache shared.world })

  -- With the data that was fetched; without any, only a message is logged.
  abbrev pub start_with : Option Data → Exec T.Fault (Shared T) (Unit {0})
  start_with none = pure tt
  start_with (some d) = store (record { is_filtering = true; filtering_data = some d })

  -- Switching the filtering on: the data is fetched if there is none.
  abbrev switch_on : FilteringConfig → Option Data → Exec T.Fault (Shared T) (Unit {0})
  switch_on config none = fetch >>= start_with
  switch_on config (some d) = store (record config { is_filtering = true })

  unfoldable pub toggle : FilteringConfig → Exec T.Fault (Shared T) (Unit {0})
  unfolding store fetch
  toggle config =
      if config.is_filtering
      then store (record config { is_filtering = false })
      else switch_on config config.filtering_data

  unfoldable pub handle_signal : Signal → Exec T.Fault (Shared T) (Unit {0})
  unfolding load toggle clear_cache
  handle_signal sighup = fetch >>= start_with
  handle_signal sigusr1 = load >>= toggle
  handle_signal sigusr2 = clear_cache
  handle_signal (other n) = pure tt

  -- The signals of the stream, one after the other.
  unfoldable pub handle : List Signal → Exec T.Fault (Shared T) (Unit {0})
  unfolding handle_signal
  handle [] = pure tt
  handle (signal ∷ signals) = handle_signal signal >> handle signals
