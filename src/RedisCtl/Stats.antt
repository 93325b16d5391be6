-- ===== src/RedisCtl/Stats.antt =====
-- redis-ctl/src/modules/stats.rs: clearing and displaying the statistics of the clients.
pub mod Keys
use dnsliar_rs.Base.{
  ℕ, String, Bool, Option, none, some, List, [], ◌∷◌, if◌then◌else◌, is_empty, get_elem?,
}
use dnsliar_rs.Base.Text.{◌<>◌, split}
use dnsliar_rs.RedisCtl.{ExitCode, success, Tool, return, end, ask, ◌>>=◌, ◌>>◌, Connection, print}
use dnsliar_rs.RedisCtl.Rules.{show_rules}

-- The pattern that both functions scan for.
unfoldable pub stats_pattern : String → String → String
stats_pattern daemon_id pattern = "DBL;R;stats;" <> (daemon_id <> (";" <> pattern))

module _ {World Fault : Type 0} (connection : Connection World Fault) (daemon_id : String) where
  unfoldable pub clear : String → Tool World Fault ExitCode
  unfolding print stats_pattern
  clear pattern = do
    keys ← ask (connection.scan_match (stats_pattern daemon_id pattern))
    if is_empty keys then print connection ("No match for: " <> pattern) >> return success else (do
      del_count ← ask (connection.del_keys keys)
      print connection (connection.show_usize del_count <> " stat(s) deleted")
      return success)

  -- The loop of `show` is that of `search` on rules.
  unfoldable pub show : String → Tool World Fault ExitCode
  unfolding print stats_pattern show_rules
  show pattern = do
    keys ← ask (connection.scan_match (stats_pattern daemon_id pattern))
    if is_empty keys
        then print connection ("No match for: " <> pattern) >> return success
        else show_rules connection keys
