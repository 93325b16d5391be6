-- ===== src/Signals/Reach.antt =====
-- The daemon as a machine: signals, requests and the outside world take turns.
use dnsliar_rs.Base.{length, ◌≤◌, String, ◌≡◌, Bool, true, false, Option, none, some}
use dnsliar_rs.Exec.{Outcome, ok, err, panic, value, continue, pure, ◌>>=◌}
use dnsliar_rs.Dns.{Types, Request, ResponseCode, HickoryLaws}
use dnsliar_rs.Env.{Env}
use dnsliar_rs.Filtering.{Data, labels}
use dnsliar_rs.Handler.{handle_request, error_message}
use dnsliar_rs.Handler.Total.{IsValid, handle_request_total}
use dnsliar_rs.Signals.{
  Signal, sighup, sigusr1, sigusr2, other, Shared, initial_config, toggle, handle_signal,
  start_with, fetch, load, store, clear_cache,
}

module _ {T : Types} (env : Env T) (daemon_id : String) where
  -- One turn: a signal, a request on the configuration as it is then, or another client of Redis.
  pub data Step : Shared T → Shared T → Type 0 where
    signalled :
        (signal : Signal) (shared : Shared T)
        → Step shared (handle_signal env daemon_id signal shared).1
    requested :
        (request : Request T) (shared : Shared T)
        → Step shared (record shared {
          world = (handle_request env daemon_id shared.config request shared.world).1;
        })
    outside : (w : T.World) (shared : Shared T) → Step shared (record shared { world = w })

  -- Any number of turns.
  pub data Steps : Shared T → Shared T → Type 0 where
    done : (s : Shared T) → Steps s s
    step : (s t u : Shared T) → Step s t → Steps t u → Steps s u

  initial_config-IsValid : (o : Option Data) → IsValid (initial_config o)
  unfolding initial_config
  initial_config-IsValid none on = cc
  initial_config-IsValid (some d) on = λ p. cc

  fetched-IsValid :
      (r : Outcome T.Fault (Option Data)) (shared : Shared T)
      → IsValid shared.config
      → IsValid (continue r (start_with env daemon_id) shared).1.config
  unfolding store pure
  fetched-IsValid (ok none) shared valid = valid
  fetched-IsValid (ok (some d)) shared valid = λ on p. cc
  fetched-IsValid (err e) shared valid = valid
  fetched-IsValid panic shared valid = valid

  toggle-IsValid :
      (shared : Shared T)
      → IsValid shared.config
      → IsValid (toggle env daemon_id shared.config shared).1.config
  unfolding toggle ◌>>=◌ store fetch
  toggle-IsValid shared valid = go shared.config.is_filtering shared.config.filtering_data valid
    where
      go :
          (on : Bool) (o : Option Data)
          → let s : Shared T = record {
            config = record { is_filtering = on; filtering_data = o };
            world = shared.world;
          } in
            IsValid s.config → IsValid (toggle env daemon_id s.config s).1.config
      go true o v = λ p. cc
      go false none v = fetched-IsValid _ _ v
      go false (some d) v = λ on p. cc

  -- A signal keeps a configuration valid: it does not lead to a filtering that is on without data to
  -- filter by.
  handle_signal-IsValid :
      (signal : Signal) (shared : Shared T)
      → IsValid shared.config
      → IsValid (handle_signal env daemon_id signal shared).1.config
  unfolding handle_signal ◌>>=◌ load clear_cache fetch
  handle_signal-IsValid sighup shared valid = fetched-IsValid _ _ valid
  handle_signal-IsValid sigusr1 shared valid = toggle-IsValid shared valid
  handle_signal-IsValid sigusr2 shared valid = valid
  handle_signal-IsValid (other n) shared valid = valid

  Step-IsValid : {s t : Shared T} → Step s t → IsValid s.config → IsValid t.config
  Step-IsValid (signalled signal s) valid = handle_signal-IsValid signal s valid
  Step-IsValid (requested request s) valid = valid
  Step-IsValid (outside w s) valid = valid

  -- Turns of the daemon, in any number and order, keep a configuration valid: the filtering is on
  -- only with data to filter by.
  pub Steps-IsValid : {s t : Shared T} → Steps s t → IsValid s.config → IsValid t.config
  Steps-IsValid (done s) valid = valid
  Steps-IsValid (step s t u first rest) valid = Steps-IsValid rest (Step-IsValid first valid)

  -- From the configuration that `main` starts with, after any turns of signals, requests and other
  -- clients, a request is answered and its handler does not panic, provided that its name has at most
  -- 255 labels, that lookups return typed records, and that a message without records can be sent.
  pub handle_request-reachable :
      (o : Option Data) (w : T.World) (t : Shared T) (request : Request T)
      → (laws : HickoryLaws env.hickory) → Steps (record { config = initial_config o; world = w }) t
      → ((name : T.Name)
          → request.query_name ≡ value name
          → length (labels (env.hickory.name_to_string name)) ≤ 255)
      → ((code : ResponseCode) (w' : T.World)
          → (info : T.ResponseInfo) × ((env.hickory.send_response
                (error_message env request code)
                w').0
              ≡ value info))
      → (info : T.ResponseInfo) × ((handle_request env daemon_id t.config request t.world).0
          ≡ ok info)
  handle_request-reachable o w t request laws turns short sends =
      handle_request_total env laws daemon_id t.config
        (Steps-IsValid turns (initial_config-IsValid o)) request t.world short sends
