-- ===== src/Tests/Editing.antt =====
-- The command line tool on rules.
use dnsliar_rs.Base.{
  ℕ, String, ◌≡◌, refl, Bool, true, false, ◌||◌, ◌&&◌, none, some, List, [], ◌∷◌, ◌++◌,
  if◌then◌else◌,
}
use dnsliar_rs.Base.Text.{str_eq, ◌<>◌}
use dnsliar_rs.Net.{Ipv4Addr, Ipv6Addr}
use dnsliar_rs.Exec.{value}
use dnsliar_rs.RedisCtl.{done, success, code, Connection, ◌>>=◌}
use dnsliar_rs.RedisCtl.Feed.{Outside, not_sent}
use dnsliar_rs.RedisCtl.Rules.{Parsed, parsed, rule_fields, type_args, add, delete, disable, enable}
use dnsliar_rs.RedisCtl.Rules.Add.{ReadsBack, IsAnswered}
use dnsliar_rs.RedisCtl.Rules.Answered.{type_args-IsAnswered}
use dnsliar_rs.RedisCtl.Rules.Pairs.{
  Keywords, is_parsed, covers_a, covers_aaaa, type_args-is_parsed,
}
use dnsliar_rs.RedisCtl.Rules.Switch.{disable-reports-zero}
use dnsliar_rs.Tests.Log.{Log, log_connection, log_flags}
use dnsliar_rs.Tests.Toy.{toy_ip, toy_ip-laws, toy_env, toy_data, ip4, ip6}

pub toy_ip-ReadsBack : ReadsBack toy_ip
toy_ip-ReadsBack = record {
  v4_back = λ s ip e. back4 (str_eq s "192.0.2.1") (str_eq s "192.0.2.9") ip e;
  v6_back =
      λ s ip e. back6 (str_eq s "192.0.2.1" || str_eq s "192.0.2.9") (str_eq s "2001:db8::1") ip e;
}
  where
    back4 :
        (b c : Bool) (ip : Ipv4Addr)
        → (if b then some (ip4 1) else if c then some (ip4 9) else none) ≡ some ip
        → toy_ip.parse_v4 (toy_ip.show_v4 ip) ≡ some ip
    back4 true c ip e = let same : ip4 1 ≡ ip = cc in rw (← same) refl
    back4 false true ip e = let same : ip4 9 ≡ ip = cc in rw (← same) refl
    back4 false false ip e = cc

    back6 :
        (b c : Bool) (ip : Ipv6Addr)
        → (if b then none else if c then some (ip6 1) else none) ≡ some ip
        → toy_ip.parse_v6 (toy_ip.show_v6 ip) ≡ some ip
    back6 true c ip e = cc
    back6 false true ip e = let same : ip6 1 ≡ ip = cc in rw (← same) refl
    back6 false false ip e = cc

-- "A" with the default, "AAAA" with the address given.
abbrev given : List String
given = "A" ∷ "1" ∷ "AAAA" ∷ "2001:db8::1" ∷ []

given_test : type_args toy_ip {Fault = ℕ} (some "2001:db8::1") (some "A") ≡ done (parsed given)
unfolding type_args
given_test = refl

type_args-IsAnswered_example :
    IsAnswered toy_env toy_data.sinks (rule_fields "20240101" "me" ++ given)
type_args-IsAnswered_example =
    type_args-IsAnswered toy_env toy_data.sinks (record { a_text = refl; aaaa_text = refl })
      toy_ip-laws toy_ip-ReadsBack "20240101" "me" (some "2001:db8::1") (some "A") given given_test

toy_ip-Keywords : Keywords toy_ip
toy_ip-Keywords = record { a_v4 = refl; a_v6 = refl; aaaa_v4 = refl; aaaa_v6 = refl }

type_args-is_parsed_example :
    (p : Parsed) × (type_args toy_ip {Fault = ℕ} (some "A") (some "192.0.2.9") ≡ done p)
    × (is_parsed p ≡ (
        (covers_a toy_ip "A" && covers_aaaa toy_ip "192.0.2.9")
        || (covers_aaaa toy_ip "A" && covers_a toy_ip "192.0.2.9")))
type_args-is_parsed_example = type_args-is_parsed toy_ip toy_ip-Keywords toy_ip-laws "A" "192.0.2.9"

-- The output, after the commands, last line first.
abbrev pub toy_connection : Connection (List String) ℕ
toy_connection = record {
  scan_match = λ pattern w. (value ("DBL;R;ads;example.com" ∷ []), w);
  hset = λ key field val w. (value 0, (key <> val) ∷ w);
  command = λ name key args w. (value true, name ∷ w);
  hgetall = λ key w. (value "", w);
  now = λ w. (2024, 1, 1);
  println = λ text w. text ∷ w;
  show_usize = λ n. "0";
  show_4 = λ n. "2024";
  show_02 = λ n. "01";
  show_debug = λ s. s;
  smembers = λ key w. (value [], w);
  sadd = λ key members w. (value 0, w);
  srem = λ key members w. (value 0, w);
  del = λ key w. (value tt, w);
  del_keys = λ keys w. (value 0, w);
  scan = λ cursor w. (value (0, []), w);
  show_list = λ l. "";
  show_fault = λ f. "";
  hset_multiple = λ key pairs w. (value true, w);
}

-- No file can be read, and no list can be had.
abbrev pub toy_outside : Outside (List String) ℕ
toy_outside = record {
  read_to_string = λ path w. (value "", w);
  parse_sources = λ text. value [];
  client_new = λ w. true;
  get = λ url w. (not_sent "no network", w);
  open_lines = λ path w. (value [], w);
}

add_test :
    add toy_connection toy_ip "ads" "me" "example.com" (some "A") (some "192.0.2.9") []
    ≡ (done (code 65), "IP parsed was not Ipv6" ∷ [])
unfolding add ◌>>=◌
add_test = refl

delete_test :
    delete toy_connection "ads" "example.com" (some "AAAA") []
    ≡ (done success, "The rule was added to the blacklist" ∷ "hdel" ∷ [])
unfolding delete ◌>>=◌
delete_test = refl

-- A rule that is enabled.
abbrev enabled_rule : Log
enabled_rule = ("DBL;R;ads;example.com", "enabled", "1") ∷ []

enabled_rule_test : log_flags.has enabled_rule "DBL;R;ads;example.com" ≡ true
unfolding log_flags
enabled_rule_test = refl

disable-reports-zero_example :
    (disable log_connection "ads" "example.*" enabled_rule
      ≡ (done success, ("DBL;R;ads;example.com", "enabled", "0") ∷ enabled_rule))
    × (enable log_connection "ads" "example.*" enabled_rule
        ≡ (done success, ("DBL;R;ads;example.com", "enabled", "1") ∷ enabled_rule))
disable-reports-zero_example =
    disable-reports-zero log_connection log_flags "ads" "example.*" "DBL;R;ads;example.com" []
      enabled_rule enabled_rule refl (enabled_rule_test, tt)
