-- ===== src/RedisCtl/Feed/Single.antt =====
-- `add_to_filter` of redis-ctl/src/modules/feed.rs: one rule for each line of a file.
use dnsliar_rs.Base.{
  ℕ, ◌+◌, String, Bool, true, false, Option, none, some, List, [], ◌∷◌, ◌++◌, if◌then◌else◌,
  is_empty,
}
use dnsliar_rs.Base.Text.{◌<>◌, str_eq}
use dnsliar_rs.Base.Words.{is_ascii_whitespace, words}
use dnsliar_rs.Net.{IpAddr, v4, v6, IpText, parse_ip, show_ip}
use dnsliar_rs.Exec.{Reply, value, fault}
use dnsliar_rs.Filtering.{rule_key}
use dnsliar_rs.RedisCtl.{
  ExitCode, success, Tool, return, ask, ◌>>=◌, ◌>>◌, Connection, print, get_datetime,
}
use dnsliar_rs.RedisCtl.Feed.{Outside}
use dnsliar_rs.RedisCtl.Rules.{rule_fields}

module _ (text : IpText) where
  abbrev pub shown_args : Option IpAddr → Option (List String)
  shown_args none = none
  shown_args (some (v4 ip)) = some ("A" ∷ show_ip text (v4 ip) ∷ [])
  shown_args (some (v6 ip)) = some ("AAAA" ∷ show_ip text (v6 ip) ∷ [])

  -- The fields of one type or address on a line: `none` is a parsing error.
  unfoldable pub ip_args : String → Option (List String)
  ip_args ip =
      if str_eq ip "A"
      then some ("A" ∷ "1" ∷ [])
      else if str_eq ip "AAAA"
      then some ("AAAA" ∷ "1" ∷ [])
      else shown_args (parse_ip text ip)

abbrev pub or_nil : Option (List String) → List String
or_nil none = []
or_nil (some args) = args

module _ {World Fault : Type 0} (connection : Connection World Fault) (text : IpText) where
  abbrev pub report_ip : ℕ → Option (List String) → Tool World Fault (Unit {0})
  report_ip line_cnt none =
      print connection ("Error parsing line: " <> (connection.show_usize line_cnt <> "!"))
  report_ip line_cnt (some args) = return tt

  -- The loop over the rest of a line.
  unfoldable pub feed_ips : ℕ → List String → List String → Tool World Fault (List String)
  unfolding ip_args print
  feed_ips line_cnt [] args = return args
  feed_ips line_cnt (ip ∷ ips) args =
      report_ip line_cnt (ip_args text ip)
      >> feed_ips line_cnt ips (args ++ or_nil (ip_args text ip))

  -- All fields of a line: the defaults of both types where nothing follows the domain.
  unfoldable pub feed_args : ℕ → List String → List String → Tool World Fault (List String)
  unfolding feed_ips
  feed_args line_cnt ips args = feed_ips line_cnt ips args >>= λ args'.
      return (if is_empty ips then args' ++ "A" ∷ "1" ∷ "AAAA" ∷ "1" ∷ [] else args')

  abbrev pub count_added : ℕ → ℕ → Reply Fault Bool → Tool World Fault ℕ
  count_added line_cnt add_cnt (value true) = return (add_cnt + 1)
  count_added line_cnt add_cnt (value false) = return add_cnt
  count_added line_cnt add_cnt (fault err) =
      print connection (
        "Error feeding filter on line "
        <> (connection.show_usize line_cnt <> (":\nERR: " <> connection.show_fault err)))
      >> return add_cnt

  -- The command of a line.
  abbrev pub feed_rule : String → ℕ → ℕ → List String → Tool World Fault ℕ
  feed_rule key line_cnt add_cnt args w =
      let (reply, w') = connection.command "hset" key args w in
      count_added line_cnt add_cnt reply w'

  module _ (filter date src : String) where
    abbrev pub feed_words : ℕ → ℕ → List String → Tool World Fault ℕ
    feed_words line_cnt add_cnt [] = return add_cnt
    feed_words line_cnt add_cnt (domain_name ∷ ips) =
        feed_args line_cnt ips (rule_fields date src)
        >>= feed_rule (rule_key filter domain_name) line_cnt add_cnt

    -- The body of the loop over the lines, with the number of the line.
    abbrev pub feed_line : ℕ → ℕ → Option String → Tool World Fault ℕ
    feed_line line_cnt add_cnt none = return add_cnt
    feed_line line_cnt add_cnt (some line) =
        feed_words line_cnt add_cnt (words is_ascii_whitespace line)

    unfoldable pub feed_lines : List (Option String) → ℕ → ℕ → Tool World Fault ℕ
    unfolding feed_args words
    feed_lines [] line_cnt add_cnt = return add_cnt
    feed_lines (line ∷ lines) line_cnt add_cnt =
        feed_line (line_cnt + 1) add_cnt line >>= feed_lines lines (line_cnt + 1)

  unfoldable pub add_to_filter :
      Outside World Fault → String → String → String → Tool World Fault ExitCode
  unfolding feed_lines get_datetime print
  add_to_filter outside path_to_list filter src = do
    lines ← ask (outside.open_lines path_to_list)
    (year, month, day) ← get_datetime connection
    add_cnt ← feed_lines filter (year <> (month <> day)) src lines 0 0
    print connection (connection.show_usize add_cnt <> " rule(s) added to Redis")
    return success
