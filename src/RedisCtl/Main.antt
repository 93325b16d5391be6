-- ===== src/RedisCtl/Main.antt =====
-- redis-ctl/src/main.rs and redis-ctl/src/commands.rs: the command line and its dispatch. `clap` makes
-- the arguments of the command line, an `Args`.
pub mod RulePanics
pub mod ConfPanics
pub mod FeedPanics
pub mod Panics
use dnsliar_rs.Base.{ℕ, String, Option, none, some, List}
use dnsliar_rs.Base.Text.{◌<>◌}
use dnsliar_rs.Net.{IpText}
use dnsliar_rs.Exec.{Reply, value, fault, Call}
use dnsliar_rs.RedisCtl.{
  Ended, done, failed, panicked, ExitCode, code, Tool, return, end, ask, ◌>>=◌, ◌>>◌, Connection,
  print,
}
use dnsliar_rs.RedisCtl.Rules
use dnsliar_rs.RedisCtl.Conf
use dnsliar_rs.RedisCtl.Stats
use dnsliar_rs.RedisCtl.Feed.{Outside}
use dnsliar_rs.RedisCtl.Feed.Auto.{auto}
use dnsliar_rs.RedisCtl.Feed.Single.{add_to_filter}

pub data Subcommands : Type 0 where
  add_binds remove_binds add_forwarders remove_forwarders set_sinks : List String → Subcommands
  add_blocked_ips remove_blocked_ips add_filters remove_filters : List String → Subcommands

pub data Commands : Type 0 where
  show_conf : Commands
  edit_conf : Subcommands → Commands
  -- the filter, the source, the domain and the two addresses
  add_rule : String → String → String → Option String → Option String → Commands
  del_rule : String → String → Option String → Commands
  search_rules disable_rules enable_rules : String → String → Commands
  auto_feed : String → Commands
  -- the path, the filter and the source
  feed : String → String → String → Commands
  show_stats clear_stats : String → Commands

pub record Args : Type 0 where
  pub path_to_confile : String
  pub command : Commands

pub record Confile : Type 0 where
  pub daemon_id : String
  pub redis_address : String

-- What the tool is given besides the connection: its files, its version, the reader of addresses with
-- its errors, and the two steps to a connection. `fuel` bounds the loop over SCAN.
pub record Setting (World Fault : Type 0) : Type 0 where
  pub outside : Outside World Fault
  pub parse_confile : String → Reply String Confile
  pub open_client : String → Call World Fault (Unit {0})
  pub get_connection : Call World Fault (Unit {0})
  pub text : IpText
  pub parse_error : String → String
  pub version : String
  pub fuel : ℕ

module _ {World Fault : Type 0} (connection : Connection World Fault)
    (setting : Setting World Fault) where
  unfoldable pub edit : String → Subcommands → Tool World Fault ExitCode
  edit daemon_id (Subcommands.add_binds binds) = Conf.add_binds connection daemon_id binds
  edit daemon_id (Subcommands.remove_binds binds) = Conf.remove_binds connection daemon_id binds
  edit daemon_id (Subcommands.add_forwarders forwarders) =
      Conf.add_forwarders connection daemon_id forwarders
  edit daemon_id (Subcommands.remove_forwarders forwarders) =
      Conf.remove_forwarders connection daemon_id forwarders
  edit daemon_id (Subcommands.set_sinks sinks) = Conf.set_sinks connection daemon_id sinks
  edit daemon_id (Subcommands.add_blocked_ips ips) =
      Conf.add_blocked_ips connection daemon_id setting.text setting.parse_error ips
  edit daemon_id (Subcommands.remove_blocked_ips ips) =
      Conf.remove_blocked_ips connection daemon_id setting.text setting.parse_error ips
  edit daemon_id (Subcommands.add_filters filters) = Conf.add_filters connection daemon_id filters
  edit daemon_id (Subcommands.remove_filters filters) =
      Conf.remove_filters connection daemon_id filters

  -- The match on the command: `none` is the loop of `auto` out of fuel.
  unfoldable pub run : Confile → Commands → Tool World Fault (Option ExitCode)
  unfolding edit
  run confile show_conf =
      Conf.show connection confile.daemon_id setting.version confile.redis_address >>= λ c.
      return (some c)
  run confile (edit_conf subcommand) = edit confile.daemon_id subcommand >>= λ c. return (some c)
  run confile (clear_stats pattern) =
      Stats.clear connection confile.daemon_id pattern >>= λ c. return (some c)
  run confile (show_stats pattern) =
      Stats.show connection confile.daemon_id pattern >>= λ c. return (some c)
  run confile (search_rules filter domain) =
      Rules.search connection filter domain >>= λ c. return (some c)
  run confile (disable_rules filter pattern) =
      Rules.disable connection filter pattern >>= λ c. return (some c)
  run confile (enable_rules filter pattern) =
      Rules.enable connection filter pattern >>= λ c. return (some c)
  run confile (auto_feed path_to_sources) =
      auto connection setting.outside setting.fuel path_to_sources
  run confile (feed path_to_list filter source) =
      add_to_filter connection setting.text setting.outside path_to_list filter source >>= λ c.
      return (some c)
  run confile (add_rule filter source domain ip1 ip2) =
      Rules.add connection setting.text filter source domain ip1 ip2 >>= λ c. return (some c)
  run confile (del_rule filter domain ip) =
      Rules.delete connection filter domain ip >>= λ c. return (some c)

  -- The last match: an error of Redis is printed.
  abbrev pub exit_with : Ended Fault (Option ExitCode) → Tool World Fault (Option ExitCode)
  exit_with (done c) = return c
  exit_with (failed err) = print connection (connection.show_fault err) >> return (some (code 1))
  exit_with panicked = end panicked

  unfoldable pub dispatch : Confile → Commands → Tool World Fault (Option ExitCode)
  unfolding run print
  dispatch confile command w = let (result, w') = run confile command w in exit_with result w'

  abbrev pub connected :
      Confile → Commands → Reply Fault (Unit {0}) → Tool World Fault (Option ExitCode)
  connected confile command (value u) = dispatch confile command
  connected confile command (fault err) =
      print connection ("Error creating the connection: " <> connection.show_fault err)
      >> return (some (code 69))

  abbrev pub with_client :
      Confile → Commands → Reply Fault (Unit {0}) → Tool World Fault (Option ExitCode)
  with_client confile command (fault err) =
      print connection ("Error probing the Redis server: " <> connection.show_fault err)
      >> return (some (code 68))
  with_client confile command (value u) =
      λ w. let (reply, w') = setting.get_connection w in connected confile command reply w'

  abbrev pub with_confile : Commands → Reply String Confile → Tool World Fault (Option ExitCode)
  with_confile command (fault err) =
      print connection ("Error deserializing config file data: " <> err) >> return (some (code 78))
  with_confile command (value confile) = λ w.
      let (reply, w') = setting.open_client ("redis://" <> (confile.redis_address <> "/")) w in
      with_client confile command reply w'

  -- The path is printed as `{:?}` writes it.
  abbrev pub with_text : Args → Reply String String → Tool World Fault (Option ExitCode)
  with_text args (fault err) =
      print connection (
        "Error reading file from " <> (connection.show_debug args.path_to_confile <> (": " <> err)))
      >> return (some (code 78))
  with_text args (value text) = with_confile args.command (setting.parse_confile text)

  unfoldable pub main : Args → Tool World Fault (Option ExitCode)
  unfolding dispatch print
  main args w =
      let (text, w') = setting.outside.read_to_string args.path_to_confile w in
      with_text args text w'
