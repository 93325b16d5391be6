-- ===== src/Filtering/Total.antt =====
-- Panics in `filter` and in the statistics.
use dnsliar_rs.Base.{
  ℕ, ◌≤◌, String, ◌≡◌, ◌⊎◌, inl, inr, Bool, none, some, List, [], ◌∷◌, All, All-weaken, arith,
  length, le→leb,
}
use dnsliar_rs.Net.{Ipv4Addr, Ipv6Addr, IpAddr}
use dnsliar_rs.Exec.Safe.{
  Safe, IsHandled, Safe-pure, Safe-bind, Safe-lift, Safe-if, Safe-redis, Safe-time, Safe-first_some,
}
use dnsliar_rs.Dns.{Types, RecordType, HickoryLaws}
use dnsliar_rs.Env.{Env, Safe-on_world}
use dnsliar_rs.RedisMod.{prepare_stats, write_stats_request, write_stats_match}
use dnsliar_rs.Filtering.{lie, try_rule, try_domain, domain_at, rule_key, order, labels, filter}
use dnsliar_rs.Filtering.Order.{Within, order_bounds}
use dnsliar_rs.Filtering.Resolution.{filter_resolution-Safe}
use dnsliar_rs.Filtering.Decision.{one_label}

-- The types that `try_handle_request` hands to `filter`.
abbrev pub IsAddressType : RecordType → Type 0
IsAddressType t = (t ≡ RecordType.a) ⊎ (t ≡ RecordType.aaaa)

module _ {T : Types} (env : Env T) (daemon_id : String) where
  prepare_stats-Safe : (ip : String) → Safe (prepare_stats env daemon_id ip)
  unfolding prepare_stats
  prepare_stats-Safe ip = Safe-bind _ _ (Safe-time env.epoch) (λ t. Safe-pure _)

  pub write_stats_request-Safe : (ip : IpAddr) → Safe (write_stats_request env daemon_id ip)
  unfolding write_stats_request
  write_stats_request-Safe ip =
      Safe-bind _ _ (prepare_stats-Safe _) (λ p. Safe-bind _ _ (Safe-redis _) (λ _. Safe-redis _))

  write_stats_match-Safe :
      (ip : IpAddr) (rule : String) → Safe (write_stats_match env daemon_id ip rule)
  unfolding write_stats_match
  write_stats_match-Safe ip rule =
      Safe-bind _ _ (prepare_stats-Safe _) (λ p. Safe-bind _ _ (Safe-redis _) (λ _. Safe-redis _))

module _ {T : Types} (env : Env T) where
  lie-IsHandled :
      (rule_val : String) (query_type : RecordType) (sinks : Ipv4Addr × Ipv6Addr)
      → IsAddressType query_type
      → IsHandled (lie env rule_val query_type sinks)
  unfolding lie
  lie-IsHandled rule_val query_type sinks (inl e) = rw e (ground arith)
  lie-IsHandled rule_val query_type sinks (inr e) = rw e (ground arith)

module _ {T : Types} (env : Env T) (daemon_id : String) (query_name : T.Name)
    (query_type : RecordType) (src_ip : IpAddr) (sinks : Ipv4Addr × Ipv6Addr)
    (asked : IsAddressType query_type) where
  try_rule-Safe :
      (rule : String) → Safe (try_rule env daemon_id query_name query_type src_ip sinks rule)
  unfolding try_rule
  try_rule-Safe rule = Safe-bind _ _ (Safe-on_world _ (Safe-redis _)) (elim [
    | none ↦ Safe-pure none
    | some rule_val ↦ Safe-bind _ _ (Safe-on_world _ (Safe-redis _)) (λ enabled.
        Safe-if enabled _ _
          (λ _.
            Safe-bind _ _ (Safe-lift _ (lie-IsHandled env rule_val query_type sinks asked))
              (λ rdata.
                Safe-bind _ _ (Safe-on_world _ (write_stats_match-Safe env daemon_id src_ip rule))
                  (λ _. Safe-pure _)))
          (λ _. Safe-pure none))
  ])

  try_domain-Safe :
      (filters names : List String) (index : ℕ)
      → Within 1 (length names) index
      → Safe (try_domain env daemon_id query_name query_type src_ip sinks filters names index)
  unfolding try_domain
  try_domain-Safe filters names index w =
      Safe-bind _ _ (Safe-lift _ (unfold domain_at in rw (le→leb index (length names) w.1) tt))
        (λ domain. Safe-first_some _ filters (all_rules domain filters))
    where
      all_rules :
          (domain : String) (fs : List String)
          → All
              (λ filter. Safe (
                try_rule env daemon_id query_name query_type src_ip sinks (rule_key filter domain)))
              fs
      all_rules domain [] = tt
      all_rules domain (f ∷ fs) = (try_rule-Safe (rule_key f domain), all_rules domain fs)

  -- For a question of type A or AAAA about a name of at most 255 labels, when lookups return typed
  -- records, `filter` does not panic, whatever Redis answers: neither a slice of the name nor an
  -- `unreachable!` is out of place.
  pub filter-Safe :
      (filters : List String) (wants_dnssec : Bool)
      → HickoryLaws env.hickory
      → length (labels (env.hickory.name_to_string query_name)) ≤ 255
      → Safe (filter env daemon_id query_name query_type src_ip sinks filters wants_dnssec)
  unfolding filter
  filter-Safe filters wants_dnssec laws short =
      let names : List String = labels (env.hickory.name_to_string query_name) in
      Safe-bind _ _
        (Safe-first_some _ (order (length names)) (
          All-weaken _ _ (λ i w. try_domain-Safe filters names i w) (order (length names))
            (order_bounds (length names) (one_label (env.hickory.name_to_string query_name))
              short)))
        (elim [
          | none ↦
              filter_resolution-Safe env laws daemon_id query_name query_type sinks wants_dnssec
          | some sorted ↦ Safe-pure sorted
        ])
