-- ===== src/Tests/Starting.antt =====
-- The start of the daemon.
use dnsliar_rs.Base.{ℕ, String, ◌≡◌, refl, false, none, some, List, [], ◌∷◌, if◌then◌else◌}
use dnsliar_rs.Base.Text.{str_eq, split, to_lowercase}
use dnsliar_rs.Exec.{ok, value, ◌>>=◌}
use dnsliar_rs.Exec.Safe.{Safe}
use dnsliar_rs.Env.{Env}
use dnsliar_rs.Config.{build_resolver}
use dnsliar_rs.Config.Forwarders.{resolver_from, build_resolver-eq-resolver_from}
use dnsliar_rs.Start.{System, main}
use dnsliar_rs.Start.Total.{main-Safe}
use dnsliar_rs.Tests.Toy.{toy_types, toy_env, toy_set, toy_redis}

-- Redis with a forwarder and two binds too.
abbrev full_set : String → List String
full_set key =
    if str_eq key "DBL;forwarders;one"
    then ":53" ∷ "nowhere" ∷ []
    else if str_eq key "DBL;binds;one"
    then "udp=:53" ∷ "quic=:53" ∷ []
    else toy_set key

abbrev full_env : Env toy_types
full_env = record toy_env {
  redis = record toy_redis { smembers = λ key w. (value (full_set key), w) };
}

-- No socket can be opened.
abbrev deaf_system : System toy_types ℕ
deaf_system = record {
  read_to_string = λ path w. (value "", w);
  parse_confile = λ text. value (record { daemon_id = "one"; redis_address = "127.0.0.1:6379" });
  signals_new = λ signals w. (value tt, w);
  open_client = λ url w. (value tt, w);
  get_connection_manager = λ w. (value tt, w);
  default_opts = record { num_concurrent_reqs = 2; preserve_intermediates = false; edns0 = false };
  parse_socket = λ s. if str_eq s ":53" then some 53 else none;
  bind = λ proto addr w. (false, w);
  block_until_done = λ setup config sockets w. (value tt, w);
  close_signals = λ w. w;
  signals_task = λ w. (value tt, w);
}

-- The daemon runs without a socket.
main_test : (main full_env deaf_system 0).0 ≡ ok 0
unfolding main ◌>>=◌ split to_lowercase
main_test = refl

main-Safe_example : Safe (main full_env deaf_system)
main-Safe_example = main-Safe full_env deaf_system

build_resolver-eq-resolver_from_example :
    build_resolver full_env "one" deaf_system.parse_socket deaf_system.default_opts 0 ≡ (
      ok (
          resolver_from full_env "one" deaf_system.parse_socket deaf_system.default_opts
            (value (":53" ∷ "nowhere" ∷ []))),
      0,
    )
build_resolver-eq-resolver_from_example =
    build_resolver-eq-resolver_from full_env "one" deaf_system.parse_socket deaf_system.default_opts
      (value (":53" ∷ "nowhere" ∷ [])) 0 0 refl
