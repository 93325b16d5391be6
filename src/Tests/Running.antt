-- ===== src/Tests/Running.antt =====
-- The tool as a whole, and its statistics.
use dnsliar_rs.Base.{ℕ, String, ◌≡◌, ◌≢◌, refl, some, List, [], ◌∷◌, All}
use dnsliar_rs.Exec.{Reply, value}
use dnsliar_rs.RedisMod.{stats_key}
use dnsliar_rs.RedisCtl.{Connection, done, code, ◌>>=◌}
use dnsliar_rs.RedisCtl.Conf
use dnsliar_rs.RedisCtl.NoPanic.{NoPanic}
use dnsliar_rs.RedisCtl.Stats.Keys.{Matches, stats_pattern-misses}
use dnsliar_rs.RedisCtl.Stats.{stats_pattern}
use dnsliar_rs.RedisCtl.Main.{Setting, main, edit_conf, Subcommands}
use dnsliar_rs.Tests.Toy.{toy_ip}
use dnsliar_rs.Tests.Editing.{toy_connection, toy_outside}

abbrev toy_setting : Setting (List String) ℕ
toy_setting = record {
  outside = toy_outside;
  parse_confile = λ text. value (record { daemon_id = "one"; redis_address = "127.0.0.1:6379" });
  open_client = λ url w. (value tt, w);
  get_connection = λ w. (value tt, w);
  text = toy_ip;
  parse_error = λ ip. "invalid IP address syntax";
  version = "1";
  fuel = 1;
}

main_test :
    main toy_connection toy_setting
      (record {
        path_to_confile = "conf";
        command = edit_conf (Subcommands.add_blocked_ips ("x" ∷ []));
      })
      []
    ≡ (done (some (code 65)), "Parsing error on 'x' : invalid IP address syntax" ∷ [])
unfolding main ◌>>=◌ Conf.add_blocked_ips
main_test = refl

-- SCAN replies the pattern.
abbrev echoing : Connection (List String) ℕ
echoing = record toy_connection { scan_match = λ pattern w. (value (pattern ∷ []), w) }

echoed :
    {key : String} {keys : List String}
    → ◌≡◌ {A = Reply ℕ (List String)} (value (key ∷ [])) (value keys)
    → key ∷ [] ≡ keys
echoed h = cc

echoing-Matches : Matches echoing
echoing-Matches = record {
  begins = λ prefix rest w keys plain e. rw (← echoed e) ((rest, refl), tt);
}

stats_pattern-misses_example :
    All (λ key. (id ip : String) → key ≢ stats_key id ip) (stats_pattern "one" "*" ∷ [])
stats_pattern-misses_example =
    stats_pattern-misses echoing echoing-Matches "one" "*" [] (stats_pattern "one" "*" ∷ []) refl
