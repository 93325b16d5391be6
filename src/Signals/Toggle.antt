-- ===== src/Signals/Toggle.antt =====
-- What the signals do to the configuration.
use dnsliar_rs.Base.{String, ◌≡◌, ◌≢◌, refl, Bool, true, false, not, Option, none, some, [], ◌∷◌}
use dnsliar_rs.Exec.{ok, ◌>>=◌}
use dnsliar_rs.Dns.{Types}
use dnsliar_rs.Env.{Env}
use dnsliar_rs.Filtering.{Data, FilteringConfig}
use dnsliar_rs.Config.{setup_filtering}
use dnsliar_rs.Signals.{sighup, sigusr1, Shared, toggle, handle_signal, handle, fetch, load, store}

module _ {T : Types} (env : Env T) (daemon_id : String) where
  -- The configuration by the data that was read.
  abbrev refreshed : FilteringConfig → Option Data → FilteringConfig
  refreshed config none = config
  refreshed config (some d) = record { is_filtering = true; filtering_data = some d }

  -- When the data is read without a panic, SIGHUP installs it and turns the filtering on, also when
  -- it was off before; when Redis has no valid data, the configuration stays as it was.
  pub sighup-refreshed :
      (shared : Shared T) (o : Option Data) (w : T.World)
      → setup_filtering env daemon_id shared.world ≡ (ok o, w)
      → handle_signal env daemon_id sighup shared
        ≡ (ok tt, record { config = refreshed shared.config o; world = w })
  unfolding handle_signal ◌>>=◌ fetch store
  sighup-refreshed shared none w e = rw e refl
  sighup-refreshed shared (some d) w e = rw e refl

  -- With filtering data in place, SIGUSR1 switches the filtering over and touches nothing else, so
  -- that a second SIGUSR1 restores the configuration; Redis is not asked.
  pub sigusr1-twice :
      (shared : Shared T)
      → shared.config.filtering_data ≢ none
      → (handle_signal env daemon_id sigusr1 shared ≡ (
        ok tt,
        record shared {
          config = record shared.config { is_filtering = not shared.config.is_filtering };
        },
      ))
        × (handle env daemon_id (sigusr1 ∷ sigusr1 ∷ []) shared ≡ (ok tt, shared))
  unfolding handle handle_signal ◌>>=◌ fetch store load toggle
  sigusr1-twice shared h = go shared.config.is_filtering shared.config.filtering_data h
    where
      go :
          (on : Bool) (o : Option Data)
          → o ≢ none
          → let s : Shared T = record {
            config = record { is_filtering = on; filtering_data = o };
            world = shared.world;
          } in
            (handle_signal env daemon_id sigusr1 s
              ≡ (ok tt, record s { config = record s.config { is_filtering = not on } }))
            × (handle env daemon_id (sigusr1 ∷ sigusr1 ∷ []) s ≡ (ok tt, s))
      go on none h = absurd (h refl)
      go true (some d) h = (refl, refl)
      go false (some d) h = (refl, refl)
