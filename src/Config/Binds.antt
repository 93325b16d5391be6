-- ===== src/Config/Binds.antt =====
-- The binds that `setup_binds` opens.
use dnsliar_rs.Base.{
  ℕ, suc, ◌+◌, String, ◌≡◌, refl, ◌∙◌, Bool, false, List, [], ◌∷◌, ◌++◌, length, All, arith,
  if◌then◌else◌,
}
use dnsliar_rs.Exec.{ok, ◌>>=◌}
use dnsliar_rs.Config.{Server, register, bind_loop, setup_binds}
use dnsliar_rs.Config.Lists.{IsKnown}

module _ {World SocketAddr : Type 0} (bind : String → SocketAddr → World → Bool × World) where
  -- The server after an attempt on each bind, in order: it holds the sockets that were opened.
  abbrev pub attempts :
      List (String × SocketAddr) → Server World SocketAddr → Server World SocketAddr
  attempts [] server = server
  attempts ((proto, addr) ∷ binds) server =
      let (opened, world) = bind proto addr server.world in
      attempts binds (record {
        registered = if opened then server.registered ++ (proto, addr) ∷ [] else server.registered;
        world = world;
      })

  attempts-nothing :
      (binds : List (String × SocketAddr)) (server : Server World SocketAddr)
      → ((proto : String) (addr : SocketAddr) (w : World) → (bind proto addr w).0 ≡ false)
      → (attempts binds server).registered ≡ server.registered
  attempts-nothing [] server fails = refl
  attempts-nothing ((proto, addr) ∷ binds) server fails =
      attempts-nothing binds _ fails ∙ rw (fails proto addr server.world) refl

module _ {World Fault SocketAddr : Type 0} (bind : String → SocketAddr → World → Bool × World) where
  bind_loop_lem :
      (binds : List (String × SocketAddr)) (n : ℕ) (server : Server World SocketAddr)
      → All IsKnown binds
      → bind_loop {Fault = Fault} bind binds n server
        ≡ (ok (n + length binds), attempts bind binds server)
  unfolding bind_loop ◌>>=◌ register
  bind_loop_lem [] n server h = let e : n + 0 ≡ n = omega arith in rw e refl
  bind_loop_lem ((proto, addr) ∷ binds) n server h =
      let e : n + suc (length binds) ≡ (n + 1) + length binds = omega arith in
      rw (h.0, e) (bind_loop_lem binds (n + 1) _ h.1)

  -- For binds of known protocols, `setup_binds` always returns `Ok`, after one attempt on each bind:
  -- also when every attempt fails, since a failed bind is counted as a successful one.
  pub setup_binds-ok :
      (binds : List (String × SocketAddr)) (server : Server World SocketAddr)
      → All IsKnown binds
      → setup_binds {Fault = Fault} bind binds server ≡ (ok tt, attempts bind binds server)
  unfolding setup_binds ◌>>=◌
  setup_binds-ok binds server h = rw (bind_loop_lem binds 0 server h) (ground arith)

  -- When no socket can be opened, `setup_binds` still returns `Ok`, and the server has no more sockets
  -- than before: the error on no bind at all is not reached.
  pub setup_binds-nothing :
      (binds : List (String × SocketAddr)) (server : Server World SocketAddr)
      → All IsKnown binds
      → ((proto : String) (addr : SocketAddr) (w : World) → (bind proto addr w).0 ≡ false)
      → let (result, server') = setup_binds {Fault = Fault} bind binds server in
        (result ≡ ok tt) × (server'.registered ≡ server.registered)
  setup_binds-nothing binds server h fails =
      rw (setup_binds-ok binds server h) (refl, attempts-nothing bind binds server fails)
