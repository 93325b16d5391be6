-- ===== src/RedisMod.antt =====
-- dnsblrsd/src/redis_mod.rs: the connection to Redis, and the statistics that the daemon writes.
use dnsliar_rs.Base.{ℕ, String}
use dnsliar_rs.Base.Text.{◌<>◌}
use dnsliar_rs.Net.{IpAddr, show_ip}
use dnsliar_rs.Errors.{from_redis_error, from_system_time_error}
use dnsliar_rs.Exec.{Exec, Call, pure, await, ◌>>=◌, ◌>>◌}
use dnsliar_rs.Dns.{Types}
use dnsliar_rs.Env.{Env}

-- The key of the statistics of a client.
abbrev pub stats_key : String → String → String
stats_key daemon_id ip = "DBL;stats;" <> daemon_id <> ";" <> ip

-- The two calls of the crate are arguments; their errors become the same error of the daemon.
unfoldable pub build_manager :
    {World Fault : Type 0}
    → (String → Call World Fault (Unit {0}))
    → Call World Fault (Unit {0})
    → String
    → Exec Fault World (Unit {0})
build_manager open_client get_connection_manager redis_address = do
  await from_redis_error (open_client ("redis://" <> (redis_address <> "/")))
  await from_redis_error get_connection_manager

module _ {T : Types} (env : Env T) where
  unfoldable pub prepare_stats : String → String → Exec T.Fault T.World (ℕ × String)
  prepare_stats daemon_id ip = do
    time_epoch ← await from_system_time_error env.epoch
    pure (time_epoch, stats_key daemon_id ip)

  unfoldable pub write_stats_request : String → IpAddr → Exec T.Fault T.World (Unit {0})
  unfolding prepare_stats
  write_stats_request daemon_id ip = do
    (time_epoch, key) ← prepare_stats daemon_id (show_ip env.ip ip)
    await from_redis_error (env.redis.hset_epoch key "last_seen" time_epoch)
    await from_redis_error (env.redis.hincr key "query_count" 1)

  unfoldable pub write_stats_match : String → IpAddr → String → Exec T.Fault T.World (Unit {0})
  unfolding prepare_stats
  write_stats_match daemon_id ip rule = do
    (time_epoch, key) ← prepare_stats daemon_id (show_ip env.ip ip)
    await from_redis_error (env.redis.hset_epoch key "last_match" time_epoch)
    await from_redis_error (env.redis.hincr rule "match_count" 1)
