-- ===== src/Filtering.antt =====
-- dnsblrsd/src/filtering.rs: the rules on domain names, and the check of the answered addresses.

pub mod Order
pub mod Resolution
pub mod Rules
pub mod Blocking
pub mod Candidates
pub mod Search
pub mod Decision
pub mod Total
use dnsliar_rs.Base.{
  ℕ, zero, suc, ◌-◌, ◌%◌, String, Bool, true, false, Option, none, some, List, [], ◌∷◌, ◌++◌, leb,
  ◌==◌, if◌then◌else◌, length, drop, is_empty,
}
use dnsliar_rs.Base.Text.{◌<>◌, str_eq, pop, split, join}
use dnsliar_rs.Net.{Ipv4Addr, Ipv6Addr, IpAddr, v4, v6, parse_ip, show_ip}
use dnsliar_rs.Errors.{from_kind, invalid_rule, from_redis_error}
use dnsliar_rs.Exec.{Outcome, ok, err, panic, Exec, pure, lift, await, first_some, ◌>>=◌, ◌>>◌}
use dnsliar_rs.Dns.{Types, RecordType, RData, Record, ip_addr, from_rdata}
use dnsliar_rs.Resolver.{SortedRecords, Conn, ttl_1h, resolve}
use dnsliar_rs.Env.{Env, on_world}
use dnsliar_rs.RedisMod.{write_stats_match}

pub record Data : Type 0 where
  pub filters : List String
  pub sinks : Ipv4Addr × Ipv6Addr

pub record FilteringConfig : Type 0 where
  pub is_filtering : Bool
  pub filtering_data : Option Data

-- `lo..` for `count` numbers.
unfoldable pub up_from : ℕ → ℕ → List ℕ
up_from lo zero = []
up_from lo (suc count) = lo ∷ up_from (suc lo) count

-- `lo..=hi`
unfoldable pub range_inclusive : ℕ → ℕ → List ℕ
unfolding up_from
range_inclusive lo hi = up_from lo (suc hi - lo)

abbrev pub filter_5 : List ℕ
filter_5 = 3 ∷ 4 ∷ 2 ∷ 5 ∷ 1 ∷ []

-- In what order the suffixes of a name of `name_count` labels are tried, by their number of labels.
-- The cast of `name_count` to `u8` wraps.
unfoldable pub order : ℕ → List ℕ
unfolding range_inclusive
order name_count =
    if name_count == 1
    then 1 ∷ []
    else if name_count == 2
    then 2 ∷ 1 ∷ []
    else if name_count == 3
    then 3 ∷ 2 ∷ 1 ∷ []
    else if name_count == 4
    then 3 ∷ 4 ∷ 2 ∷ 1 ∷ []
    else if name_count == 5
    then filter_5
    else filter_5 ++ range_inclusive 6 (name_count % 256)

-- The labels of a name, without the final dot of its text.
unfoldable pub labels : String → List String
unfolding pop split
labels name = split b'.' (pop name)

-- The last `index` labels. An index above their number underflows, and the slice panics.
unfoldable pub domain_at : {F : Type 0} → List String → ℕ → Outcome F String
domain_at names index =
    if leb index (length names) then ok (join "." (drop (length names - index) names)) else panic

unfoldable pub rule_key : String → String → String
rule_key filter domain = "DBL;R;" <> filter <> ";" <> domain

module _ {T : Types} where
  -- The sink of the type asked; the macro `unreachable!` in the last arm.
  unfoldable pub sink_rdata : RecordType → Ipv4Addr × Ipv6Addr → Outcome T.Fault (RData T)
  sink_rdata RecordType.a sinks = ok (RData.a sinks.0)
  sink_rdata RecordType.aaaa sinks = ok (RData.aaaa sinks.1)
  sink_rdata _ sinks = panic

  unfoldable pub custom_rdata : Option IpAddr → Outcome T.Fault (RData T)
  custom_rdata none = err (from_kind invalid_rule)
  custom_rdata (some (v4 ip)) = ok (RData.a ip)
  custom_rdata (some (v6 ip)) = ok (RData.aaaa ip)

  -- The answer of a lie: one record.
  abbrev pub single_answer : T.Name → RData T → SortedRecords T
  single_answer query_name rdata = record {
    answer = from_rdata query_name ttl_1h rdata ∷ [];
    name_servers = [];
    soas = [];
    additional = [];
  }

module _ {T : Types} (env : Env T) where
  -- The loop over the answers of `filter_resolution`.
  unfoldable pub check_answer :
      String
      → T.Name
      → RecordType
      → Ipv4Addr × Ipv6Addr
      → SortedRecords T
      → List (Record T)
      → Exec T.Fault (Conn T) (SortedRecords T)
  unfolding sink_rdata
  check_answer daemon_id query_name query_type sinks sorted [] = pure sorted
  check_answer daemon_id query_name query_type sinks sorted (r ∷ rs) =
      let rest = check_answer daemon_id query_name query_type sinks sorted rs in
      elim (ip_addr r.rdata) [
        | none ↦ rest
        | some ip ↦ do
          blocked ← on_world (
              await from_redis_error
                (env.redis.sismember ("DBL;blocked-ips;" <> daemon_id) (show_ip env.ip ip)))
          if blocked
              then (do
                rdata ← lift (sink_rdata query_type sinks)
                pure (record sorted { answer = from_rdata query_name ttl_1h rdata ∷ [] }))
              else rest
      ]

  unfoldable pub filter_resolution :
      String
      → T.Name
      → RecordType
      → Ipv4Addr × Ipv6Addr
      → Bool
      → Exec T.Fault (Conn T) (SortedRecords T)
  unfolding check_answer
  filter_resolution daemon_id query_name query_type sinks wants_dnssec = do
    sorted ← resolve env.hickory query_name query_type wants_dnssec
    if is_empty sorted.answer
        then pure sorted
        else check_answer daemon_id query_name query_type sinks sorted sorted.answer

  -- What is answered for a rule with the value `rule_val`.
  unfoldable pub lie : String → RecordType → Ipv4Addr × Ipv6Addr → Outcome T.Fault (RData T)
  unfolding sink_rdata custom_rdata
  lie rule_val query_type sinks =
      if str_eq rule_val "1"
      then sink_rdata query_type sinks
      else custom_rdata (parse_ip env.ip rule_val)

  module _ (daemon_id : String) (query_name : T.Name) (query_type : RecordType)
      (src_ip : IpAddr) where
    -- The body of the inner loop, for the key of one rule: `none` is `continue`.
    unfoldable pub try_rule :
        Ipv4Addr × Ipv6Addr → String → Exec T.Fault (Conn T) (Option (SortedRecords T))
    unfolding lie
    try_rule sinks rule = do
      found ←
          on_world
            (await from_redis_error (env.redis.hget rule (env.hickory.type_to_string query_type)))
      elim found [
        | none ↦ pure none
        | some rule_val ↦ do
          enabled ← on_world (await from_redis_error (env.redis.hget_bool rule "enabled"))
          if enabled
              then (do
                rdata ← lift (lie rule_val query_type sinks)
                on_world (write_stats_match env daemon_id src_ip rule)
                pure (some (single_answer query_name rdata)))
              else pure none
      ]

    unfoldable pub try_domain :
        Ipv4Addr × Ipv6Addr
        → List String
        → List String
        → ℕ
        → Exec T.Fault (Conn T) (Option (SortedRecords T))
    unfolding first_some try_rule domain_at
    try_domain sinks filters names index = do
      domain ← lift (domain_at names index)
      first_some (λ filter. try_rule sinks (rule_key filter domain)) filters

    unfoldable pub filter :
        Ipv4Addr × Ipv6Addr → List String → Bool → Exec T.Fault (Conn T) (SortedRecords T)
    unfolding first_some try_domain filter_resolution labels order
    filter sinks filters wants_dnssec = do
      let names = labels (env.hickory.name_to_string query_name)
      found ← first_some (try_domain sinks filters names) (order (length names))
      elim found [
        | none ↦ filter_resolution daemon_id query_name query_type sinks wants_dnssec
        | some sorted ↦ pure sorted
      ]
