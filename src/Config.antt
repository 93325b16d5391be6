-- ===== src/Config.antt =====
-- dnsblrsd/src/config.rs: reading the daemon's configuration from Redis, and in Config/Confile from its
-- file. The logging is not modelled. A socket address is what `parse_socket` makes of a text; `bind`
-- opens a socket.
pub mod Sinks
pub mod Lists
pub mod Binds
pub mod Confile
pub mod Forwarders
use dnsliar_rs.Base.{
  ℕ, suc, ◌+◌, String, Bool, true, false, ◌&&◌, ◌||◌, not, Option, none, some, List, [], ◌∷◌, ◌++◌,
  length, get_elem?, is_empty, ◌==◌, if◌then◌else◌,
}
use dnsliar_rs.Base.Text.{◌<>◌, str_eq, split, to_lowercase}
use dnsliar_rs.Net.{Ipv4Addr, Ipv6Addr, IpAddr, v4, v6, IpText, parse_ip}
use dnsliar_rs.Errors.{from_kind, socket_binding}
use dnsliar_rs.Exec.{
  crash, raise, Outcome, ok, err, panic, Exec, Reply, value, fault, Call, pure, lift, ◌>>=◌,
}
use dnsliar_rs.Dns.{Types}
use dnsliar_rs.Env.{Env}
use dnsliar_rs.Resolver.Build.{ResolverOpts, ResolverSetup, build}
use dnsliar_rs.Filtering.{Data}

abbrev with_v6 : Ipv4Addr → Option Ipv6Addr → Option (Ipv4Addr × Ipv6Addr)
with_v6 ip none = none
with_v6 ip (some ip6) = some (ip, ip6)

abbrev with_v4 : Ipv6Addr → Option Ipv4Addr → Option (Ipv4Addr × Ipv6Addr)
with_v4 ip6 none = none
with_v4 ip6 (some ip) = some (ip, ip6)

-- The second sink is read as the family that the first is not; `unwrap` panics without one.
abbrev pub second_sink :
    {F : Type 0} → IpText → Option IpAddr → Option String → Outcome F (Option (Ipv4Addr × Ipv6Addr))
second_sink text none second = ok none
second_sink text (some ip) none = panic
second_sink text (some (v4 ip)) (some second) = ok (with_v6 ip (text.parse_v6 second))
second_sink text (some (v6 ip)) (some second) = ok (with_v4 ip (text.parse_v4 second))

abbrev first_sink :
    {F : Type 0} → IpText → Option String → Option String → Outcome F (Option (Ipv4Addr × Ipv6Addr))
first_sink text none second = panic
first_sink text (some first) second = second_sink text (parse_ip text first) second

unfoldable pub check_sinks_ips :
    {F : Type 0} → IpText → List String → Outcome F (Option (Ipv4Addr × Ipv6Addr))
check_sinks_ips text sinks = first_sink text (get_elem? sinks 0) (get_elem? sinks 1)

-- `filter_map(..).collect()`
abbrev pub cons_some : {B : Type 0} → Option B → List B → List B
cons_some none ys = ys
cons_some (some y) ys = y ∷ ys

module _ {A B : Type 0} where
  unfoldable pub filter_map : (A → Option B) → List A → List B
  filter_map f [] = []
  filter_map f (x ∷ xs) = cons_some (f x) (filter_map f xs)

-- The last test of `config_forwarders` and `parse_binds`: all are valid, none is, or some are.
unfoldable pub at_least_one : {A : Type 0} → ℕ → List A → Option (List A)
at_least_one recvd_cnt valid =
    if length valid == recvd_cnt then some valid else if length valid == 0 then none else some valid

module _ {SocketAddr : Type 0} (parse_socket : String → Option SocketAddr) where
  unfoldable pub config_forwarders : List String → Option (List SocketAddr)
  unfolding filter_map at_least_one
  config_forwarders recvd_forwarders =
      if length recvd_forwarders == 0
      then none
      else at_least_one (length recvd_forwarders) (filter_map parse_socket recvd_forwarders)

  abbrev pub with_proto : String → Option SocketAddr → Option (String × SocketAddr)
  with_proto proto none = none
  with_proto proto (some addr) = some (proto, addr)

  -- The body of the loop of `parse_binds`, on the parts of a bind: `none` is `continue`.
  unfoldable pub parse_parts : List String → Option (String × SocketAddr)
  parse_parts [] = none
  parse_parts (proto ∷ []) = none
  parse_parts (proto ∷ socket ∷ rest) =
      let lower = to_lowercase proto in
      if not (str_eq lower "tcp") && not (str_eq lower "udp")
      then none
      else with_proto lower (parse_socket socket)

  unfoldable pub parse_bind : String → Option (String × SocketAddr)
  unfolding parse_parts
  parse_bind bind = parse_parts (split b'=' bind)

  unfoldable pub parse_binds : List String → Option (List (String × SocketAddr))
  unfolding parse_bind filter_map at_least_one
  parse_binds recvd_binds =
      if length recvd_binds == 0
      then none
      else at_least_one (length recvd_binds) (filter_map parse_bind recvd_binds)

module _ {T : Types} (env : Env T) (daemon_id : String) where
  abbrev pub reply_option : {A : Type 0} → Reply T.Fault A → Option A
  reply_option (value a) = some a
  reply_option (fault f) = none

  -- The members of a set of the configuration, or `none` on an error.
  unfoldable pub members : String → Exec T.Fault T.World (Option (List String))
  members key w =
      let (reply, w') = env.redis.smembers (key <> daemon_id) w in (ok (reply_option reply), w')

  abbrev pub filtering_data : Ipv4Addr × Ipv6Addr → Option (List String) → Option Data
  filtering_data sinks none = none
  filtering_data sinks (some filters) =
      if length filters == 0 then none else some (record { filters = filters; sinks = sinks })

  -- Past the sinks.
  abbrev pub fetch_filters : Option (Ipv4Addr × Ipv6Addr) → Exec T.Fault T.World (Option Data)
  fetch_filters none = pure none
  fetch_filters (some sinks) =
      members "DBL;filters;" >>= λ filters. pure (filtering_data sinks filters)

  abbrev pub fetch_sinks : Option (List String) → Exec T.Fault T.World (Option Data)
  fetch_sinks none = pure none
  fetch_sinks (some sinks) =
      if length sinks == 2
      then (lift (check_sinks_ips env.ip sinks) >>= fetch_filters)
      else pure none

  unfoldable pub setup_filtering : Exec T.Fault T.World (Option Data)
  unfolding check_sinks_ips members
  setup_filtering = members "DBL;sinks;" >>= fetch_sinks

  module _ {SocketAddr : Type 0} (parse_socket : String → Option SocketAddr) where
    abbrev pub and_maybe : {A B : Type 0} → Option A → (A → Option B) → Option B
    and_maybe none f = none
    and_maybe (some a) f = f a

    abbrev pub built : ResolverOpts → Option (List SocketAddr) → Option (ResolverSetup SocketAddr)
    built opts none = none
    built opts (some forwarders) = some (build opts forwarders)

    unfoldable pub build_resolver :
        ResolverOpts → Exec T.Fault T.World (Option (ResolverSetup SocketAddr))
    unfolding members config_forwarders build
    build_resolver opts = members "DBL;forwarders;" >>= λ recvd.
        pure (built opts (and_maybe recvd (config_forwarders parse_socket)))

    unfoldable pub build_binds : Exec T.Fault T.World (Option (List (String × SocketAddr)))
    unfolding members parse_binds
    build_binds =
        members "DBL;binds;" >>= λ recvd. pure (and_maybe recvd (parse_binds parse_socket))

-- The sockets that the server has taken, and the world in which they are opened.
pub record Server (World SocketAddr : Type 0) : Type 0 where
  pub registered : List (String × SocketAddr)
  pub world : World

module _ {World Fault SocketAddr : Type 0} (bind : String → SocketAddr → World → Bool × World) where
  -- One attempt to open a socket; a failure is only logged.
  unfoldable pub register : String → SocketAddr → Exec Fault (Server World SocketAddr) (Unit {0})
  register proto addr server =
      let (opened, world) = bind proto addr server.world in
      (
        ok tt,
        record {
          registered =
              if opened then server.registered ++ (proto, addr) ∷ [] else server.registered;
          world = world;
        },
      )

  -- The loop, with the number of binds counted as successful so far.
  unfoldable pub bind_loop : List (String × SocketAddr) → ℕ → Exec Fault (Server World SocketAddr) ℕ
  unfolding register
  bind_loop [] successful_bind_cnt = pure successful_bind_cnt
  bind_loop ((proto, addr) ∷ binds) successful_bind_cnt =
      if str_eq proto "udp" || str_eq proto "tcp"
      then (register proto addr >>= λ _. bind_loop binds (successful_bind_cnt + 1))
      else crash

  unfoldable pub setup_binds :
      List (String × SocketAddr) → Exec Fault (Server World SocketAddr) (Unit {0})
  unfolding bind_loop
  setup_binds binds = bind_loop binds 0 >>= λ successful_bind_cnt.
      if successful_bind_cnt == length binds
      then pure tt
      else if successful_bind_cnt == 0
      then raise (from_kind socket_binding)
      else pure tt
