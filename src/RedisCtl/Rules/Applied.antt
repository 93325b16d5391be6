-- ===== src/RedisCtl/Rules/Applied.antt =====
-- A rule that the tool adds, and the daemon's `filter` after it.
use mathlib.Core.List.{Mem}
use dnsliar_rs.Base.{
  ℕ, ◌≤◌, String, ◌≡◌, refl, sym, ap, ◌∙◌, Bool, true, false, Option-cases, Option, none, some,
  List, ◌++◌, Bool-cases, inl, inr, if◌then◌else◌, length,
}
use dnsliar_rs.Base.Text.{eq_iff, str_eq, eq_refl, ◌<>◌}
use dnsliar_rs.Net.{IpTextLaws, Ipv4Addr, Ipv6Addr, IpAddr}
use dnsliar_rs.Exec.{ok, value}
use dnsliar_rs.Dns.{RData, Types, RecordType, Header}
use dnsliar_rs.Env.{Env}
use dnsliar_rs.Filtering.{lie, rule_key, filter, labels}
use dnsliar_rs.Filtering.Total.{IsAddressType}
use dnsliar_rs.RedisMod.{write_stats_match}
use dnsliar_rs.Filtering.Order.{Within}
use dnsliar_rs.Filtering.Rules.{Rules, Reads, suffix, active, or_else}
use dnsliar_rs.Filtering.Decision.{one_record, filter-blocks}
use dnsliar_rs.RedisCtl.{done, success, return, print, ◌>>=◌, Connection}
use dnsliar_rs.RedisCtl.Rules.{parsed, rule_fields, type_args, announce, outcome_text, add}
use dnsliar_rs.RedisCtl.Rules.Add.{field_of, is_even, ReadsBack, TypeTexts}
use dnsliar_rs.RedisCtl.Rules.Answered.{type_args-IsAnswered}
use dnsliar_rs.RedisCtl.Rules.Quiet.{type_args-quiet}

-- The rules after HSET of fields that enable one rule.
abbrev pub with_rule : Rules → String → List String → Rules
with_rule rules key args = record {
  field_of = λ k field.
      if str_eq k key
      then or_else (field_of field args) (rules.field_of k field)
      else rules.field_of k field;
  is_enabled = λ k. if str_eq k key then true else rules.is_enabled k;
}

-- The other rules are as they were.
with_rule-other :
    (rules : Rules) (key : String) (args : List String) (type key' : String)
    → str_eq key' key ≡ false
    → active (with_rule rules key args) type key' ≡ active rules type key'
with_rule-other rules key args type key' other = elim (Option-cases (rules.field_of key' type)) [
  | inl e ↦ rw (active, other, e) refl
  | inr (v, e) ↦ rw (active, other, e) (rw other refl)
]

-- The connection of the tool and the one of the daemon lead to one Redis server, which answers:
-- HSET of fields that have each a value adds them to the hash, and replaces those that were there.
pub record SharedHashes {T : Types} (env : Env T) (connection : Connection T.World T.Fault)
    : Type 0 where
  pub hset_reads :
      (rules : Rules) (key : String) (args : List String) (w : T.World)
      → is_even args ≡ true
      → field_of "enabled" args ≡ some "1"
      → Reads env rules w
      → (b : Bool) × (w' : T.World) × (connection.command "hset" key args w ≡ (value b, w'))
        × Reads env (with_rule rules key args) w'
  pub println_reads :
      (rules : Rules) (text : String) (w : T.World)
      → Reads env rules w
      → Reads env rules (connection.println text w)

module _ {T : Types} (env : Env T) (connection : Connection T.World T.Fault)
    (shared : SharedHashes env connection) where
  announce_lem :
      (ip1 ip2 : Option String) (rules : Rules) (w : T.World)
      → Reads env rules w
      → (w' : T.World) × (announce connection ip1 ip2 w ≡ (done tt, w')) × Reads env rules w'
  unfolding print return
  announce_lem none none rules w reads = (_, refl, shared.println_reads rules _ w reads)
  announce_lem none (some ip) rules w reads = (_, refl, reads)
  announce_lem (some ip) none rules w reads = (_, refl, reads)
  announce_lem (some ip1) (some ip2) rules w reads = (_, refl, reads)

  -- The arguments of the command, with the date of the clock.
  abbrev pub added_args : String → T.World → List String → List String
  added_args src w types =
      let (year, month, day) = connection.now w in
      rule_fields (connection.show_4 year <> (connection.show_02 month <> connection.show_02 day))
        src
      ++ types

  add_lem :
      (filter_name src domain : String) (ip1 ip2 : Option String) (types : List String)
      → type_args env.ip {Fault = T.Fault} ip1 ip2 ≡ done (parsed types)
      → (rules : Rules) (w : T.World) → Reads env rules w
      → (w' : T.World) × (add connection env.ip filter_name src domain ip1 ip2 w
          ≡ (done success, w'))
        × Reads env (with_rule rules (rule_key filter_name domain) (added_args src w types)) w'
  unfolding add ◌>>=◌
  add_lem filter_name src domain ip1 ip2 types e rules w reads =
      let (w1, said, reads1) = announce_lem ip1 ip2 rules w reads in
      let args = added_args src w types in
      let (b, w2, set, reads2) =
        shared.hset_reads rules (rule_key filter_name domain) args w1
          (type_args-quiet env.ip ip1 ip2 types e).1
          (rw (type_args-quiet env.ip ip1 ip2 types e).0 refl) reads1 in
      (
        connection.println (outcome_text b) w2,
        rw (said, e, set) refl,
        shared.println_reads _ _ w2 reads2,
      )

  with_rule-active :
      (rules : Rules) (key type rule_val src : String) (w : T.World) (types : List String)
      → field_of type types ≡ some rule_val
      → active (with_rule rules key (added_args src w types)) type key ≡ some rule_val
  with_rule-active rules key type rule_val src w types e =
      rw (active, eq_refl key, e) (rw (eq_refl key) refl)

  module _ (texts : TypeTexts env.hickory) (laws : IpTextLaws env.ip) (back : ReadsBack env.ip)
      (sinks : Ipv4Addr × Ipv6Addr) (query_type : RecordType)
      (asked : IsAddressType query_type) where
    abbrev type_text : String
    type_text = env.hickory.type_to_string query_type

    -- The rules that give a lie still do after a rule is added.
    with_rule-lie :
        (src : String) (ip1 ip2 : Option String) (types : List String)
        → type_args env.ip {Fault = T.Fault} ip1 ip2 ≡ done (parsed types)
        → (rules : Rules) (w : T.World) (rule_val : String)
        → field_of type_text types ≡ some rule_val
        → (key key' v : String)
        → (active rules type_text key' ≡ some v
            → (d : RData T) × (lie env v query_type sinks ≡ ok d))
        → active (with_rule rules key (added_args src w types)) type_text key' ≡ some v
        → (d : RData T) × (lie env v query_type sinks ≡ ok d)
    with_rule-lie src ip1 ip2 types e rules w rule_val found key key' v old act =
        elim (Bool-cases (str_eq key' key)) [
          | inr other ↦
              old (
                sym (with_rule-other rules key (added_args src w types) type_text key' other) ∙ act)
          | inl same ↦
              let (year, month, day) = connection.now w in
              let date =
                connection.show_4 year <> (connection.show_02 month <> connection.show_02 day) in
              let is_val : rule_val ≡ v = some-injective (
                sym (with_rule-active rules key type_text rule_val src w types found)
                ∙ ap (active (with_rule rules key (added_args src w types)) type_text)
                    (sym ((eq_iff key' key).0 same))
                ∙ act) in
              let (d, good, type) =
                type_args-IsAnswered env sinks texts laws back date src ip1 ip2 types e query_type
                  rule_val asked (rw found refl) in
              rw (← is_val) (d, good)
        ]
      where
        some-injective : {x y : String} → some x ≡ some y → x ≡ y
        some-injective h = cc

    -- The tool and the daemon share one Redis, which answers from one set of rules. Then `add` of a
    -- rule whose arguments are accepted exits with success, and in the world after it the daemon's
    -- `filter` answers each question of type A or AAAA for a name by one record, with the name
    -- asked, a time to live of 3600 seconds and the data of the lie of an enabled rule of some
    -- suffix of the name in a configured filter, and it does not ask the forwarders; besides it
    -- writes the statistics of the match only. This holds if the domain of the added rule is a
    -- suffix of the name (of its labels), the rule was added to a configured filter, the fields
    -- that were written hold a value for the type asked, and the name has at most 255 labels; if
    -- each rule that was enabled before and may apply has a value that gives a lie; if the
    -- statistics can be written; and if no text is both an IPv4 and an IPv6 address, an address
    -- that was read is written so that it is read again, and hickory writes the two types as "A"
    -- and "AAAA".
    pub add-filter :
        (filter_name src domain : String) (ip1 ip2 : Option String) (types : List String)
        → type_args env.ip {Fault = T.Fault} ip1 ip2 ≡ done (parsed types)
        → (rules : Rules) (w : T.World) → Reads env rules w
        → (daemon_id : String) (query_name : T.Name) (src_ip : IpAddr) (filters : List String)
          (wants_dnssec : Bool) (header : Header)
        → length (labels (env.hickory.name_to_string query_name)) ≤ 255
        → Mem filter_name filters
        → (k : ℕ) → Within 1 (length (labels (env.hickory.name_to_string query_name))) k
        → suffix (labels (env.hickory.name_to_string query_name)) k ≡ domain
        → (rule_val : String)
        → field_of (env.hickory.type_to_string query_type) types ≡ some rule_val
        → ((f : String) (i : ℕ) (v : String)
            → Mem f filters
            → Within 1 (length (labels (env.hickory.name_to_string query_name))) i
            → active rules
                (env.hickory.type_to_string query_type)
                (rule_key f (suffix (labels (env.hickory.name_to_string query_name)) i))
              ≡ some v
            → (d : RData T) × (lie env v query_type sinks ≡ ok d))
        → ((rule : String) (world : T.World)
            → (write_stats_match env daemon_id src_ip rule world).0 ≡ ok tt)
        → (w' : T.World) × (f : String) × (i : ℕ) × (v : String) × (d : RData T) × (add connection
              env.ip filter_name src domain ip1 ip2 w
            ≡ (done success, w'))
          × Mem f filters
          × Within 1 (length (labels (env.hickory.name_to_string query_name))) i
          × (active
                (with_rule rules (rule_key filter_name domain) (added_args src w types))
                (env.hickory.type_to_string query_type)
                (rule_key f (suffix (labels (env.hickory.name_to_string query_name)) i))
              ≡ some v)
          × (lie env v query_type sinks ≡ ok d)
          × (filter env daemon_id query_name query_type src_ip sinks filters wants_dnssec
                (record { header = header; world = w' })
              ≡ (
                ok (one_record query_name d),
                record {
                  header = header;
                  world =
                      (write_stats_match env daemon_id src_ip
                        (rule_key f (suffix (labels (env.hickory.name_to_string query_name)) i))
                        w').1;
                },
              ))
    add-filter filter_name src domain ip1 ip2 types e rules w reads daemon_id query_name src_ip
          filters wants_dnssec header short mem k within same rule_val found old stats =
        let (w', run, reads') = add_lem filter_name src domain ip1 ip2 types e rules w reads in
        let key = rule_key filter_name domain in
        let rules' = with_rule rules key (added_args src w types) in
        let is_active =
          ap (λ (d : String). active rules' type_text (rule_key filter_name d)) same
          ∙ with_rule-active rules key type_text rule_val src w types found in
        let (f, i, v, d, m, bound, act, good, answer) =
          filter-blocks env daemon_id query_name query_type src_ip sinks filters wants_dnssec rules'
            (record { header = header; world = w' }) reads' short filter_name k rule_val mem within
            is_active
            (λ g j u mg wj.
              with_rule-lie src ip1 ip2 types e rules w rule_val found key _ u (old g j u mg wj))
            (λ rule. stats rule w') in
        (w', f, i, v, d, run, m, bound, act, good, answer)
