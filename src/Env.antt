-- ===== src/Env.antt =====
-- All that the daemon is given: the external crates, the Redis server, the clock, and the reader
-- and writer of addresses. `Conn` is what one request's handler works on.
use dnsliar_rs.Base.{ℕ}
use dnsliar_rs.Net.{IpText}
use dnsliar_rs.Exec.{Call, Exec}
use dnsliar_rs.Exec.Safe.{Safe}
use dnsliar_rs.Redis.{Redis}
use dnsliar_rs.Dns.{Types, Hickory}
use dnsliar_rs.Resolver.{Conn}

pub record Env (T : Types) : Type 0 where
  pub redis : Redis T.World T.Fault
  pub hickory : Hickory T
  pub ip : IpText
  -- `SystemTime::now().duration_since(UNIX_EPOCH)` in seconds
  pub epoch : Call T.World T.Fault ℕ

-- A call on the outside world, made by a handler that also holds the header.
unfoldable pub on_world :
    {T : Types} {A : Type 0} → Exec T.Fault T.World A → Exec T.Fault (Conn T) A
on_world m conn = ((m conn.world).0, record conn { world = (m conn.world).1 })

pub Safe-on_world :
    {T : Types} {A : Type 0} (m : Exec T.Fault T.World A) → Safe m → Safe (on_world {T = T} m)
unfolding on_world
Safe-on_world m h = record { at = λ conn. h.at conn.world }
