-- ===== src/Tests/Serving.antt =====
-- Whole requests, and signals between them.
use dnsliar_rs.Base.{
  ℕ, ◌≤◌, String, ◌≡◌, refl, subst, false, none, some, List, [], ◌∷◌, arith, length,
}
use dnsliar_rs.Exec.{ok, Reply, value, ◌>>=◌}
use dnsliar_rs.Dns.{RecordType, ResponseCode, OpCode, MessageType, Request}
use dnsliar_rs.Filtering.{labels}
use dnsliar_rs.Handler.{handle_request, send_or_crash, error_message}
use dnsliar_rs.Handler.Errors.{handle_request-refuses}
use dnsliar_rs.Handler.Total.{handle_request_total, IsValid}
use dnsliar_rs.Config.{setup_filtering}
use dnsliar_rs.Signals.{Shared, Signal, sighup, sigusr1, initial_config, handle_signal, handle}
use dnsliar_rs.Signals.Toggle.{sighup-refreshed, sigusr1-twice}
use dnsliar_rs.Signals.Reach.{signalled, Steps, done, step, Steps-IsValid, handle_request-reachable}
use dnsliar_rs.Tests.Toy.{toy_types, toy_env, toy_laws, toy_data, toy_config, toy_request}

abbrev query : Request toy_types
query = toy_request OpCode.query MessageType.query "www.example.com." RecordType.a

abbrev answer : Request toy_types
answer = toy_request OpCode.query MessageType.response "www.example.com." RecordType.a

handle_request-refuses_example :
    handle_request toy_env "one" toy_config answer 0
    ≡ send_or_crash toy_env (error_message toy_env answer ResponseCode.refused) 0
handle_request-refuses_example = handle_request-refuses toy_env "one" toy_config answer 0 refl

toy_config-IsValid : IsValid toy_config
toy_config-IsValid on p = cc

query_short :
    (name : String)
    → ◌≡◌ {A = Reply ℕ String} (value "www.example.com.") (value name)
    → length (labels name) ≤ 255
query_short name e =
    subst (λ n. length (labels n) ≤ 255) (value-injective e) (unfold labels in omega arith)
  where
    value-injective : {a b : String} → ◌≡◌ {A = Reply ℕ String} (value a) (value b) → a ≡ b
    value-injective h = cc

handle_request_total_example :
    (info : ℕ) × ((handle_request toy_env "one" toy_config query 0).0 ≡ ok info)
handle_request_total_example =
    handle_request_total toy_env toy_laws "one" toy_config toy_config-IsValid query 0 query_short
      (λ code w. (0, refl))

abbrev off : Shared toy_types
off = record { config = initial_config none; world = 0 }

abbrev on : Shared toy_types
on = record { config = toy_config; world = 0 }

setup_test : setup_filtering toy_env "one" 0 ≡ (ok (some toy_data), 0)
unfolding setup_filtering ◌>>=◌
setup_test = refl

sighup-refreshed_example :
    handle_signal toy_env "one" sighup off ≡ (ok tt, record { config = toy_config; world = 0 })
sighup-refreshed_example = sighup-refreshed toy_env "one" off (some toy_data) 0 setup_test

sigusr1-twice_example :
    (handle_signal toy_env "one" sigusr1 on
      ≡ (ok tt, record on { config = record toy_config { is_filtering = false } }))
    × (handle toy_env "one" (sigusr1 ∷ sigusr1 ∷ []) on ≡ (ok tt, on))
sigusr1-twice_example = sigusr1-twice toy_env "one" on (λ p. cc)

-- Two signals after the start without data.
abbrev turns : List Signal
turns = sighup ∷ sigusr1 ∷ []

abbrev after : Shared toy_types → List Signal → Shared toy_types
after s [] = s
after s (signal ∷ signals) = after (handle_signal toy_env "one" signal s).1 signals

turns-Steps : Steps toy_env "one" off (after off turns)
turns-Steps = step off _ _ (signalled sighup off) (step _ _ _ (signalled sigusr1 _) (done _))

Steps-IsValid_example : IsValid (after on turns).config
Steps-IsValid_example =
    Steps-IsValid toy_env "one"
      (step on _ _ (signalled sighup on) (step _ _ _ (signalled sigusr1 _) (done _)))
      toy_config-IsValid

handle_request-reachable_example :
    (info : ℕ) × ((handle_request toy_env "one"
        (after off turns).config
        query
        (after off turns).world).0
      ≡ ok info)
handle_request-reachable_example =
    handle_request-reachable toy_env "one" none 0 (after off turns) query toy_laws turns-Steps
      query_short (λ code w. (0, refl))
