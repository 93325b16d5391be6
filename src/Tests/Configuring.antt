-- ===== src/Tests/Configuring.antt =====
-- The configuration that is read from Redis.
use dnsliar_rs.Base.{
  ℕ, suc, String, ◌≡◌, refl, Bool, false, Option, none, some, List, [], ◌∷◌, All, if◌then◌else◌,
}
use dnsliar_rs.Base.Text.{str_eq, split, to_lowercase}
use dnsliar_rs.Exec.{ok}
use dnsliar_rs.Config.{check_sinks_ips, filter_map, parse_bind, parse_binds, Server, setup_binds}
use dnsliar_rs.Config.Sinks.{check_sinks_ips_comm}
use dnsliar_rs.Config.Lists.{nonempty, parse_binds-nonempty, IsKnown}
use dnsliar_rs.Config.Binds.{attempts, setup_binds-ok, setup_binds-nothing}
use dnsliar_rs.Tests.Toy.{toy_ip, toy_ip-laws, ip4, ip6}

check_sinks_ips_test :
    check_sinks_ips {F = ℕ} toy_ip ("2001:db8::1" ∷ "192.0.2.1" ∷ []) ≡ ok (some (ip4 1, ip6 1))
unfolding check_sinks_ips
check_sinks_ips_test = refl

check_sinks_ips_comm_example :
    check_sinks_ips {F = ℕ} toy_ip ("2001:db8::1" ∷ "192.0.2.1" ∷ [])
    ≡ check_sinks_ips toy_ip ("192.0.2.1" ∷ "2001:db8::1" ∷ [])
check_sinks_ips_comm_example = check_sinks_ips_comm toy_ip toy_ip-laws "2001:db8::1" "192.0.2.1"

-- A socket address is `:` and a port, here.
abbrev toy_socket : String → Option ℕ
toy_socket s = if str_eq s ":53" then some 53 else none

parse_binds_test :
    parse_binds toy_socket ("UDP=:53" ∷ "tls=:53" ∷ "tcp=nowhere" ∷ "udp" ∷ [])
    ≡ some (("udp", 53) ∷ [])
unfolding parse_binds split to_lowercase
parse_binds_test = refl

parse_binds-nonempty_example :
    (parse_binds toy_socket ("UDP=:53" ∷ "udp" ∷ [])
      ≡ nonempty (filter_map (parse_bind toy_socket) ("UDP=:53" ∷ "udp" ∷ [])))
    × All IsKnown (filter_map (parse_bind toy_socket) ("UDP=:53" ∷ "udp" ∷ []))
parse_binds-nonempty_example = parse_binds-nonempty toy_socket ("UDP=:53" ∷ "udp" ∷ [])

abbrev two_binds : List (String × ℕ)
two_binds = ("udp", 53) ∷ ("tcp", 53) ∷ []

abbrev empty_server : Server ℕ ℕ
empty_server = record { registered = []; world = 0 }

-- Nothing can be opened, and the attempts are counted.
abbrev never : String → ℕ → ℕ → Bool × ℕ
never proto addr w = (false, suc w)

setup_binds-ok_example :
    setup_binds {Fault = ℕ} never two_binds empty_server
    ≡ (ok tt, attempts never two_binds empty_server)
setup_binds-ok_example = setup_binds-ok never two_binds empty_server (refl, (refl, tt))

setup_binds-nothing_example :
    let (result, server) = setup_binds {Fault = ℕ} never two_binds empty_server in
    (result ≡ ok tt) × (server.registered ≡ [])
setup_binds-nothing_example =
    setup_binds-nothing never two_binds empty_server (refl, (refl, tt)) (λ proto addr w. refl)
