-- ===== src/Config/Forwarders.antt =====
-- The resolver that `build_resolver` makes of the configured forwarders.
use mathlib.Core.List.{append-nil, append_assoc}
use dnsliar_rs.Base.{String, ◌≡◌, refl, sym, ap, ◌∙◌, true, Option, none, some, List, [], ◌∷◌, ◌++◌}
use dnsliar_rs.Base.Text.{◌<>◌}
use dnsliar_rs.Exec.{ok, Reply, value, fault, ◌>>=◌}
use dnsliar_rs.Dns.{Types}
use dnsliar_rs.Env.{Env}
use dnsliar_rs.Resolver.Build.{
  NameServerConfig, ResolverOpts, ResolverSetup, udp, tcp, add_name_servers, build,
}
use dnsliar_rs.Config.{filter_map, built, build_resolver}
use dnsliar_rs.Config.Lists.{nonempty, config_forwarders-nonempty}

module _ {SocketAddr : Type 0} where
  -- Each address over UDP, then over TCP.
  abbrev pub both_protocols : List SocketAddr → List (NameServerConfig SocketAddr)
  both_protocols [] = []
  both_protocols (addr ∷ addrs) =
      record { socket_addr = addr; protocol = udp }
      ∷ record { socket_addr = addr; protocol = tcp }
      ∷ both_protocols addrs

  -- What is built of the valid addresses, if there are any.
  abbrev pub resolver_of : ResolverOpts → List SocketAddr → Option (ResolverSetup SocketAddr)
  resolver_of default [] = none
  resolver_of default (addr ∷ addrs) = some (record {
    name_servers = both_protocols (addr ∷ addrs);
    opts = record default { num_concurrent_reqs = 0; preserve_intermediates = true; edns0 = true };
  })

  add_name_servers_lem :
      (addrs : List SocketAddr) (servers : List (NameServerConfig SocketAddr))
      → add_name_servers addrs servers ≡ servers ++ both_protocols addrs
  unfolding add_name_servers
  add_name_servers_lem [] servers = sym (append-nil servers)
  add_name_servers_lem (addr ∷ addrs) servers =
      add_name_servers_lem addrs _ ∙ append_assoc servers _ (both_protocols addrs)

module _ {T : Types} {SocketAddr : Type 0} (env : Env T) (daemon_id : String)
    (parse_socket : String → Option SocketAddr) where
  built-nonempty :
      (default : ResolverOpts) (valid : List SocketAddr)
      → built env daemon_id parse_socket default (nonempty valid) ≡ resolver_of default valid
  unfolding build
  built-nonempty default [] = refl
  built-nonempty default (addr ∷ addrs) = rw (add_name_servers_lem (addr ∷ addrs) []) refl

  abbrev pub resolver_from :
      ResolverOpts → Reply T.Fault (List String) → Option (ResolverSetup SocketAddr)
  resolver_from default (fault err) = none
  resolver_from default (value recvd) = resolver_of default (filter_map parse_socket recvd)

  -- When Redis replies to the query for the forwarders, `build_resolver` returns the configuration
  -- of a resolver: its name servers are the forwarders that are valid addresses, in the order in
  -- which Redis replies them, each with UDP and then with TCP; its options are the default ones
  -- with `num_concurrent_reqs` set to 0 and with `preserve_intermediates` and `edns0` on. It
  -- returns none when Redis fails, and when no address is valid. What hickory-resolver does with
  -- the configuration is not stated.
  pub build_resolver-eq-resolver_from :
      (default : ResolverOpts) (reply : Reply T.Fault (List String)) (w w' : T.World)
      → env.redis.smembers ("DBL;forwarders;" <> daemon_id) w ≡ (reply, w')
      → build_resolver env daemon_id parse_socket default w ≡ (ok (resolver_from default reply), w')
  unfolding build_resolver ◌>>=◌
  build_resolver-eq-resolver_from default (fault err) w w' e = rw e refl
  build_resolver-eq-resolver_from default (value recvd) w w' e = rw e (
      ap (λ (o : Option (ResolverSetup SocketAddr)). (ok o, w'))
        (ap (built env daemon_id parse_socket default)
            (config_forwarders-nonempty parse_socket recvd)
          ∙ built-nonempty default (filter_map parse_socket recvd)))
