-- ===== src/RedisCtl/Conf.antt =====
-- redis-ctl/src/modules/conf.rs: the sets that configure the daemon. The version is an argument.
pub mod Blocked
pub mod Sinks
pub mod Sets
use dnsliar_rs.Base.{
  ℕ, String, Bool, true, false, Option, none, some, List, [], ◌∷◌, if◌then◌else◌, is_empty, length,
  ◌==◌,
}
use dnsliar_rs.Base.Text.{◌<>◌}
use dnsliar_rs.Net.{IpAddr, IpText, parse_ip}
use dnsliar_rs.Exec.{Call}
use dnsliar_rs.RedisCtl.{ExitCode, success, code, Tool, return, ask, ◌>>=◌, ◌>>◌, Connection, print}

abbrev pub set_key : String → String → String
set_key kind daemon_id = "DBL;" <> (kind <> (";" <> daemon_id))

-- The first text that is no address, if any: the loop of the two functions on blocked addresses.
abbrev pub not_ip : String → Option IpAddr → Option String → Option String
not_ip ip none rest = some ip
not_ip ip (some parsed) rest = rest

unfoldable pub first_not_ip : IpText → List String → Option String
first_not_ip text [] = none
first_not_ip text (ip ∷ ips) = not_ip ip (parse_ip text ip) (first_not_ip text ips)

module _ {World Fault : Type 0} (connection : Connection World Fault) (daemon_id : String) where
  -- One of the four sets that `show` displays.
  abbrev pub show_set : String → String → String → Tool World Fault (Unit {0})
  show_set kind title missing = do
    members ← ask (connection.smembers (set_key kind daemon_id))
    print connection
        (if is_empty members then missing else title <> (connection.show_list members <> "\n"))

  unfoldable pub show : String → String → Tool World Fault ExitCode
  unfolding print
  show version redis_address = do
    print connection ("'redis-ctl' version " <> (version <> "\n"))
    print connection ("Confile {\n    \"daemon_id\": \"" <> (daemon_id <> "\""))
    print connection ("    \"redis_address\": \"" <> (redis_address <> "\"\n}\n"))
    show_set "binds" "Binds " "No bind is configured\n"
    show_set "forwarders" "Forwarders " "No forwarder is configured\n"
    show_set "filters" "Filters " "No filter is configured\n"
    show_set "sinks" "Sinks " "No sinks are configured\n"
    return success

  -- `sadd`, and the message with the number of new members.
  abbrev pub add_members : String → String → List String → Tool World Fault ExitCode
  add_members kind report members = do
    add_count ← ask (connection.sadd (set_key kind daemon_id) members)
    print connection (connection.show_usize add_count <> report)
    return success

  abbrev pub remove_members : String → String → List String → Tool World Fault ExitCode
  remove_members kind report members = do
    del_count ← ask (connection.srem (set_key kind daemon_id) members)
    print connection (connection.show_usize del_count <> report)
    return success

  unfoldable pub set_sinks : List String → Tool World Fault ExitCode
  unfolding print
  set_sinks sinks =
      if length sinks == 2
      then (ask (connection.del (set_key "sinks" daemon_id))
          >> add_members "sinks" " sinks added to the daemon conf" sinks)
      else (print connection "2 sinks must be provided" >> return (code 2))

  -- Past the loop. The text of the parsing error is an argument.
  abbrev pub or_reject :
      (String → String) → Option String → Tool World Fault ExitCode → Tool World Fault ExitCode
  or_reject parse_error none rest = rest
  or_reject parse_error (some ip) rest =
      print connection ("Parsing error on '" <> (ip <> ("' : " <> parse_error ip)))
      >> return (code 65)

  unfoldable pub add_blocked_ips :
      IpText → (String → String) → List String → Tool World Fault ExitCode
  unfolding print first_not_ip
  add_blocked_ips text parse_error ips =
      or_reject parse_error (first_not_ip text ips)
        (add_members "blocked-ips" " IP(s) added to the IP blacklist" ips)

  unfoldable pub remove_blocked_ips :
      IpText → (String → String) → List String → Tool World Fault ExitCode
  unfolding print first_not_ip
  remove_blocked_ips text parse_error ips =
      or_reject parse_error (first_not_ip text ips)
        (remove_members "blocked-ips" " IP(s) removed from the IP blacklist" ips)

  unfoldable pub add_binds : List String → Tool World Fault ExitCode
  unfolding print
  add_binds binds = add_members "binds" " bind(s) added to the daemon conf" binds

  unfoldable pub remove_binds : List String → Tool World Fault ExitCode
  unfolding print
  remove_binds binds = remove_members "binds" " bind(s) removed from the daemon conf" binds

  unfoldable pub add_forwarders : List String → Tool World Fault ExitCode
  unfolding print
  add_forwarders forwarders =
      add_members "forwarders" " forwarder(s) added to the daemon conf" forwarders

  unfoldable pub remove_forwarders : List String → Tool World Fault ExitCode
  unfolding print
  remove_forwarders forwarders =
      remove_members "forwarders" " forwarder(s) removed from the daemon conf" forwarders

  unfoldable pub add_filters : List String → Tool World Fault ExitCode
  unfolding print
  add_filters filters = add_members "filters" " filter(s) added to the daemon conf" filters

  unfoldable pub remove_filters : List String → Tool World Fault ExitCode
  unfolding print
  remove_filters filters =
      remove_members "filters" " filter(s) removed from the daemon conf" filters
