-- ===== src/RedisCtl/Rules.antt =====
-- redis-ctl/src/modules/rules.rs: adding, deleting, enabling, disabling and searching rules.
pub mod Add
pub mod Answered
pub mod Pairs
pub mod Switch
pub mod Quiet
pub mod Applied
pub mod Disabled
use dnsliar_rs.Base.{
  ℕ, zero, suc, ◌+◌, String, Bool, true, false, ◌&&◌, ◌||◌, Option, none, some, List, [], ◌∷◌, ◌++◌,
  if◌then◌else◌, is_empty, get_elem?,
}
use dnsliar_rs.Base.Text.{◌<>◌, str_eq, split}
use dnsliar_rs.Net.{Ipv4Addr, Ipv6Addr, IpAddr, v4, v6, IpText, parse_ip}
use dnsliar_rs.Exec.{Reply, value, fault, Call}
use dnsliar_rs.Filtering.{rule_key}
use dnsliar_rs.RedisCtl.{
  Ended, done, failed, panicked, ExitCode, success, code, Tool, return, end, ask, ◌>>=◌, ◌>>◌,
  Connection, print, get_datetime,
}

-- What is made of the addresses: the fields of the types, or a message and the exit with code 65.
pub data Parsed : Type 0 where
  parsed : List String → Parsed
  rejected : String → Parsed

-- The fields that every rule has.
abbrev pub rule_fields : String → String → List String
rule_fields date src = "enabled" ∷ "1" ∷ "date" ∷ date ∷ "source" ∷ src ∷ []

module _ (text : IpText) where
  -- "A" with an address: the address has to be an IPv6 one.
  abbrev pub with_a : Option Ipv6Addr → Parsed
  with_a none = rejected "IP parsed was not Ipv6"
  with_a (some ipv6) = parsed ("A" ∷ "1" ∷ "AAAA" ∷ text.show_v6 ipv6 ∷ [])

  abbrev pub with_aaaa : Option Ipv4Addr → Parsed
  with_aaaa none = rejected "IP parsed was not Ipv4"
  with_aaaa (some ipv4) = parsed ("AAAA" ∷ "1" ∷ "A" ∷ text.show_v4 ipv4 ∷ [])

  abbrev pub with_both : Option IpAddr → Option IpAddr → Parsed
  with_both (some (v4 ipv4)) (some (v6 ipv6)) =
      parsed ("A" ∷ text.show_v4 ipv4 ∷ "AAAA" ∷ text.show_v6 ipv6 ∷ [])
  with_both (some (v6 ipv6)) (some (v4 ipv4)) =
      parsed ("A" ∷ text.show_v4 ipv4 ∷ "AAAA" ∷ text.show_v6 ipv6 ∷ [])
  with_both (some ip1) (some ip2) = rejected "Provided IPs cannot both be v4 or v6"
  with_both ip1 ip2 = rejected "Could not parse provided IPs"

  abbrev pub with_one : Option IpAddr → Parsed
  with_one none = rejected "Could not parse the provided IP"
  with_one (some (v4 ipv4)) = parsed ("A" ∷ text.show_v4 ipv4 ∷ [])
  with_one (some (v6 ipv6)) = parsed ("AAAA" ∷ text.show_v6 ipv6 ∷ [])

  -- The arms of the match on two texts, in their order.
  unfoldable pub two_args : String → String → Parsed
  two_args ip1 ip2 =
      if (str_eq ip1 "A" && str_eq ip2 "AAAA") || (str_eq ip1 "AAAA" && str_eq ip2 "A")
      then parsed (ip1 ∷ "1" ∷ ip2 ∷ "1" ∷ [])
      else if str_eq ip1 "A"
      then with_a (text.parse_v6 ip2)
      else if str_eq ip2 "A"
      then with_a (text.parse_v6 ip1)
      else if str_eq ip1 "AAAA"
      then with_aaaa (text.parse_v4 ip2)
      else if str_eq ip2 "AAAA"
      then with_aaaa (text.parse_v4 ip1)
      else with_both (parse_ip text ip1) (parse_ip text ip2)

  unfoldable pub one_arg : String → Parsed
  one_arg ip =
      if str_eq ip "A"
      then parsed (ip ∷ "1" ∷ [])
      else if str_eq ip "AAAA"
      then parsed (ip ∷ "1" ∷ [])
      else with_one (parse_ip text ip)

  -- The macro `unreachable!` in the last arm is the panic.
  unfoldable pub type_args : {Fault : Type 0} → Option String → Option String → Ended Fault Parsed
  unfolding two_args one_arg
  type_args none none = done (parsed ("A" ∷ "1" ∷ "AAAA" ∷ "1" ∷ []))
  type_args (some ip1) (some ip2) = done (two_args ip1 ip2)
  type_args (some ip) none = done (one_arg ip)
  type_args none (some ip) = panicked

abbrev pub outcome_text : Bool → String
outcome_text true = "The rule was added to the blacklist"
outcome_text false = "Could not add the rule to the blacklist"

module _ {World Fault : Type 0} (connection : Connection World Fault) where
  -- Past the match: the command, with the fields in front.
  abbrev pub add_with : String → List String → Parsed → Tool World Fault ExitCode
  add_with key fields (rejected message) = print connection message >> return (code 65)
  add_with key fields (parsed types) = do
    res ← ask (connection.command "hset" key (fields ++ types))
    print connection (outcome_text res)
    return success

  abbrev pub announce : Option String → Option String → Tool World Fault (Unit {0})
  announce none none = print connection "IP not provided, adding default rules for both v4 and v6"
  announce ip1 ip2 = return tt

  unfoldable pub add :
      IpText → String → String → String → Option String → Option String → Tool World Fault ExitCode
  unfolding type_args get_datetime print
  add text filter src domain ip1 ip2 = do
    (year, month, day) ← get_datetime connection
    announce ip1 ip2
    types ← end (type_args text ip1 ip2)
    add_with (rule_key filter domain) (rule_fields (year <> (month <> day)) src) types

  -- `del` without a type, `hdel` with one; the key is the first argument again.
  abbrev delete_command : String → String → List String → Tool World Fault ExitCode
  delete_command command key args = do
    res ← ask (connection.command command key args)
    print connection (outcome_text res)
    return success

  abbrev pub delete_with : String → Option String → Tool World Fault ExitCode
  delete_with key none =
      print connection "Record type not provided, deleting rule for both v4 and v6"
      >> delete_command "del" key (key ∷ [])
  delete_with key (some q_type) =
      if str_eq q_type "A" || str_eq q_type "AAAA"
      then delete_command "hdel" key (key ∷ q_type ∷ [])
      else (print connection "Could not parse the provided query type" >> return (code 65))

  unfoldable pub delete : String → String → Option String → Tool World Fault ExitCode
  unfolding print
  delete filter domain q_type = delete_with (rule_key filter domain) q_type

  abbrev count_of : Reply Fault ℕ → ℕ
  count_of (value n) = n
  count_of (fault f) = 0

  -- The loop of `enable` and `disable`, with the count so far; an error is passed over.
  unfoldable pub set_enabled : String → List String → ℕ → Tool World Fault ℕ
  set_enabled flag [] cnt w = (done cnt, w)
  set_enabled flag (key ∷ keys) cnt w =
      let (reply, w') = connection.hset key "enabled" flag w in
      set_enabled flag keys (cnt + count_of reply) w'

  abbrev pub switch : String → String → String → List String → Tool World Fault ExitCode
  switch flag report pattern keys =
      if is_empty keys
      then print connection ("No match for: " <> pattern) >> return success
      else (do
        cnt ← set_enabled flag keys 0
        print connection (connection.show_usize cnt <> report)
        return success)

  unfoldable pub disable : String → String → Tool World Fault ExitCode
  unfolding set_enabled print
  disable filter pattern =
      ask (connection.scan_match (rule_key filter pattern))
      >>= switch "0" " rule(s) were disabled" pattern

  unfoldable pub enable : String → String → Tool World Fault ExitCode
  unfolding set_enabled print
  enable filter pattern =
      ask (connection.scan_match (rule_key filter pattern))
      >>= switch "1" " rule(s) were enabled" pattern

  -- `splits[3]`
  abbrev pub or_panic : {A : Type 0} → Option A → Ended Fault A
  or_panic none = panicked
  or_panic (some a) = done a

  -- The loop of `search`.
  unfoldable pub show_rules : List String → Tool World Fault ExitCode
  unfolding print
  show_rules [] = return success
  show_rules (key ∷ keys) = do
    values ← ask (connection.hgetall key)
    domain ← end (or_panic (get_elem? (split b';' key) 3))
    print connection (domain <> ("\n" <> (connection.show_debug values <> "\n")))
    show_rules keys

  unfoldable pub search : String → String → Tool World Fault ExitCode
  unfolding show_rules
  search filter pattern = do
    keys ← ask (connection.scan_match (rule_key filter pattern))
    if is_empty keys
        then print connection ("No match for: " <> pattern) >> return success
        else show_rules keys
