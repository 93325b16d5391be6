-- ===== src/Redis.antt =====
-- The Redis server, as the crate `redis` shows it: one field for each command and result type that
-- the program asks for. It is a parameter of the model; `World` is whatever lies outside of the
-- program, and a command may find that other clients have changed it.
use dnsliar_rs.Base.{ℕ, String, Bool, Option, List}
use dnsliar_rs.Exec.{Call}

pub record Redis (World Fault : Type 0) : Type 0 where
  -- HGET, read as an `Option<String>` and as a `bool`
  pub hget : String → String → Call World Fault (Option String)
  pub hget_bool : String → String → Call World Fault Bool
  -- HSET of a `u64` and HINCRBY, their replies read as `()`
  pub hset_epoch : String → String → ℕ → Call World Fault (Unit {0})
  pub hincr : String → String → ℕ → Call World Fault (Unit {0})
  pub sismember : String → String → Call World Fault Bool
  pub smembers : String → Call World Fault (List String)
