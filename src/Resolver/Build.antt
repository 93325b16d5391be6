-- ===== src/Resolver/Build.antt =====
-- `build` of dnsblrsd/src/resolver.rs: what the crate hickory-resolver is given. Of the options, the
-- fields that the source writes; the crate's default is an argument.
use dnsliar_rs.Base.{ℕ, Bool, true, List, [], ◌∷◌, ◌++◌}

pub data Protocol : Type 0 where
  udp tcp : Protocol

pub record NameServerConfig (SocketAddr : Type 0) : Type 0 where
  pub socket_addr : SocketAddr
  pub protocol : Protocol

pub record ResolverOpts : Type 0 where
  pub num_concurrent_reqs : ℕ
  pub preserve_intermediates : Bool
  pub edns0 : Bool

pub record ResolverSetup (SocketAddr : Type 0) : Type 0 where
  pub name_servers : List (NameServerConfig SocketAddr)
  pub opts : ResolverOpts

module _ {SocketAddr : Type 0} where
  -- The loop over the forwarders, with the servers so far.
  unfoldable pub add_name_servers :
      List SocketAddr → List (NameServerConfig SocketAddr) → List (NameServerConfig SocketAddr)
  add_name_servers [] servers = servers
  add_name_servers (socket_addr ∷ rest) servers = add_name_servers rest (
      servers
      ++ record { socket_addr = socket_addr; protocol = udp }
        ∷ record { socket_addr = socket_addr; protocol = tcp }
        ∷ [])

  unfoldable pub build : ResolverOpts → List SocketAddr → ResolverSetup SocketAddr
  unfolding add_name_servers
  build default forwarders = record {
    name_servers = add_name_servers forwarders [];
    opts = record default { num_concurrent_reqs = 0; preserve_intermediates = true; edns0 = true };
  }
