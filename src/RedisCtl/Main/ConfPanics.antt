-- ===== src/RedisCtl/Main/ConfPanics.antt =====
-- Panics in the functions on the configuration.
use dnsliar_rs.Base.{String, Option, none, some}
use dnsliar_rs.RedisCtl.{ExitCode, Tool, Connection}
use dnsliar_rs.RedisCtl.NoPanic.{NoPanic, no_panic}
use dnsliar_rs.RedisCtl.Conf
use dnsliar_rs.RedisCtl.Conf.{or_reject}
use dnsliar_rs.RedisCtl.Main.{Subcommands, Setting, edit}

module _ {World Fault : Type 0} (connection : Connection World Fault) where
  pub show_conf-NoPanic :
      (daemon_id version redis_address : String)
      → NoPanic (Conf.show connection daemon_id version redis_address)
  unfolding Conf.show
  show_conf-NoPanic daemon_id version redis_address = search no_panic depth 40

  or_reject-NoPanic :
      (daemon_id : String) (parse_error : String → String) (o : Option String)
      (rest : Tool World Fault ExitCode)
      → NoPanic rest
      → NoPanic (or_reject connection daemon_id parse_error o rest)
  or_reject-NoPanic daemon_id parse_error none rest h = h
  or_reject-NoPanic daemon_id parse_error (some ip) rest h = search no_panic depth 20

  pub edit-NoPanic :
      (setting : Setting World Fault) (daemon_id : String) (s : Subcommands)
      → NoPanic (edit connection setting daemon_id s)
  unfolding edit Conf.add_binds Conf.remove_binds Conf.add_forwarders Conf.remove_forwarders
      Conf.set_sinks Conf.add_blocked_ips Conf.remove_blocked_ips Conf.add_filters
      Conf.remove_filters
  edit-NoPanic setting d (Subcommands.add_binds l) = search no_panic depth 20
  edit-NoPanic setting d (Subcommands.remove_binds l) = search no_panic depth 20
  edit-NoPanic setting d (Subcommands.add_forwarders l) = search no_panic depth 20
  edit-NoPanic setting d (Subcommands.remove_forwarders l) = search no_panic depth 20
  edit-NoPanic setting d (Subcommands.set_sinks l) = search no_panic depth 20
  edit-NoPanic setting d (Subcommands.add_blocked_ips l) =
      search (no_panic, or_reject-NoPanic) depth 20
  edit-NoPanic setting d (Subcommands.remove_blocked_ips l) =
      search (no_panic, or_reject-NoPanic) depth 20
  edit-NoPanic setting d (Subcommands.add_filters l) = search no_panic depth 20
  edit-NoPanic setting d (Subcommands.remove_filters l) = search no_panic depth 20
