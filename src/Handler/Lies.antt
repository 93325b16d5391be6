-- ===== src/Handler/Lies.antt =====
-- Whole requests for names that have a rule.
use mathlib.Core.List.{Mem}
use dnsliar_rs.Base.{
  ℕ, ◌≤◌, String, ◌≡◌, refl, ap, ◌∙◌, Bool, true, false, some, [], ◌∷◌, length, inl, inr,
}
use dnsliar_rs.Net.{IpAddr}
use dnsliar_rs.Exec.{to_outcome, Reply, Exec, pure, ok, value, lift, await, ◌>>=◌}
use dnsliar_rs.Errors.{from_proto_error}
use dnsliar_rs.Dns.{Types, RecordType, RData, Request, Header, Message}
use dnsliar_rs.Resolver.{SortedRecords, Conn}
use dnsliar_rs.Env.{Env}
use dnsliar_rs.RedisMod.{write_stats_request, write_stats_match}
use dnsliar_rs.Filtering.{Data, FilteringConfig, filter, labels, lie, rule_key}
use dnsliar_rs.Filtering.Order.{Within}
use dnsliar_rs.Filtering.Rules.{Rules, Reads, suffix, active}
use dnsliar_rs.Filtering.Total.{IsAddressType}
use dnsliar_rs.Filtering.Decision.{one_record, filter-blocks}
use dnsliar_rs.Handler.{
  is_op_query, is_type_query, wants_dnssec, with_header, filter_by_type, records_for, answer_query,
  handle_request,
}

module _ {T : Types} (env : Env T) (daemon_id : String) where
  -- For an address type, the handler asks `filter` when the filtering is on.
  records_for-filter :
      (config : FilteringConfig) (d : Data) (name : T.Name) (type : RecordType) (src_ip : IpAddr)
      (dnssec : Bool)
      → config.is_filtering ≡ true
      → config.filtering_data ≡ some d
      → IsAddressType type
      → records_for env daemon_id config name type src_ip dnssec
        ≡ filter env daemon_id name type src_ip d.sinks d.filters dnssec
  unfolding records_for filter_by_type
  records_for-filter config d name type src_ip dnssec on has (inl e) = rw (on, has, e) refl
  records_for-filter config d name type src_ip dnssec on has (inr e) = rw (on, has, e) refl

  -- The message of a lie: one record, as the handler addresses it.
  abbrev pub lie_message : Request T → T.Name → RData T → Message T
  lie_message request name rdata = record {
    request = request;
    edns = request.edns;
    header = record (env.hickory.response_from_request request) {
      authoritative = false;
      recursion_available = true;
    };
    answer = record { name = name; ttl = 3600; rdata = rdata } ∷ [];
    name_servers = [];
    soas = [];
    additional = [];
  }

  -- The header that the handler lends to `filter`.
  abbrev lent : Request T → Header
  lent request = record (env.hickory.response_from_request request) {
    authoritative = false;
    recursion_available = true;
  }

  -- A call that returns is followed by the rest.
  bind_at :
      {A B : Type 0} (m : Exec T.Fault T.World A) (rest : A → Exec T.Fault T.World B) (a : A)
      (w w' : T.World)
      → m w ≡ (ok a, w')
      → (m >>= rest) w ≡ rest a w'
  unfolding ◌>>=◌
  bind_at m rest a w w' e = rw e refl

  with_header_at :
      (m : Exec T.Fault (Conn T) (SortedRecords T)) (header header' : Header)
      (sorted : SortedRecords T) (w w' : T.World)
      → m (record { header = header; world = w })
        ≡ (ok sorted, record { header = header'; world = w' })
      → with_header env header m w ≡ (ok (sorted, header'), w')
  unfolding with_header
  with_header_at m header header' sorted w w' e = rw e refl

  answer_query-sends :
      (config : FilteringConfig) (request : Request T) (name : T.Name) (rdata : RData T)
      (info : T.ResponseInfo) (w w1 w2 w3 : T.World)
      → request.query_name ≡ value name
      → write_stats_request env daemon_id request.src_ip w ≡ (ok tt, w1)
      → records_for env daemon_id config name request.query_type request.src_ip
          (wants_dnssec env request.edns)
          (record { header = lent request; world = w1 })
        ≡ (ok (one_record name rdata), record { header = lent request; world = w2 })
      → env.hickory.send_response (lie_message request name rdata) w2 ≡ (value info, w3)
      → answer_query env daemon_id config request w ≡ (ok info, w3)
  unfolding answer_query lift await
  answer_query-sends config request name rdata info w w1 w2 w3 named stats found sent =
      bind_at _ _ name w w
        (ap (λ (reply : Reply T.Fault T.Name). lift (to_outcome from_proto_error reply) w) named)
      ∙ bind_at _ _ tt w w1 stats
      ∙ bind_at _ _ (one_record name rdata, lent request) w1 w2
          (with_header_at
            (records_for env daemon_id config name request.query_type request.src_ip
              (wants_dnssec env request.edns))
            (lent request) (lent request) (one_record name rdata) w1 w2 found)
      ∙ rw sent refl

  -- A request whose records are found, and whose message is sent.
  handle_request-sends :
      (config : FilteringConfig) (request : Request T) (name : T.Name) (rdata : RData T)
      (info : T.ResponseInfo) (w w1 w2 w3 : T.World)
      → is_op_query request.op_code ≡ true
      → is_type_query request.message_type ≡ true
      → request.query_name ≡ value name
      → write_stats_request env daemon_id request.src_ip w ≡ (ok tt, w1)
      → records_for env daemon_id config name request.query_type request.src_ip
          (wants_dnssec env request.edns)
          (record { header = lent request; world = w1 })
        ≡ (ok (one_record name rdata), record { header = lent request; world = w2 })
      → env.hickory.send_response (lie_message request name rdata) w2 ≡ (value info, w3)
      → handle_request env daemon_id config request w ≡ (ok info, w3)
  unfolding handle_request pure
  handle_request-sends config request name rdata info w w1 w2 w3 op type named stats found sent =
      rw
        (
          op,
          type,
          answer_query-sends config request name rdata info w w1 w2 w3 named stats found sent,
        )
        refl

  -- The filtering is on, Redis answers from one set of rules, and takes the statistics. A query of
  -- type A or AAAA for a name, of at most 255 labels, of which some suffix has an enabled rule in a
  -- configured filter for this type, is answered by one message, if messages can be sent: its
  -- header is the one of the response, not authoritative and with recursion, and its only record is
  -- the lie of an enabled rule of some suffix of the name in a configured filter, with the name
  -- asked and a time to live of 3600 seconds. The forwarders are not asked: only the statistics are
  -- written before it. This holds when the value of each enabled rule that may apply gives a lie.
  pub handle_request-lies :
      (config : FilteringConfig) (d : Data) (rules : Rules) (request : Request T) (name : T.Name)
      (w w1 : T.World)
      → config.is_filtering ≡ true
      → config.filtering_data ≡ some d
      → is_op_query request.op_code ≡ true
      → is_type_query request.message_type ≡ true
      → request.query_name ≡ value name
      → IsAddressType request.query_type
      → length (labels (env.hickory.name_to_string name)) ≤ 255
      → write_stats_request env daemon_id request.src_ip w ≡ (ok tt, w1)
      → Reads env rules w1
      → (filter_name : String) (k : ℕ) (rule_val : String) → Mem filter_name d.filters
      → Within 1 (length (labels (env.hickory.name_to_string name))) k
      → active rules
          (env.hickory.type_to_string request.query_type)
          (rule_key filter_name (suffix (labels (env.hickory.name_to_string name)) k))
        ≡ some rule_val
      → ((f : String) (i : ℕ) (v : String)
          → Mem f d.filters
          → Within 1 (length (labels (env.hickory.name_to_string name))) i
          → active rules
              (env.hickory.type_to_string request.query_type)
              (rule_key f (suffix (labels (env.hickory.name_to_string name)) i))
            ≡ some v
          → (rdata : RData T) × (lie env v request.query_type d.sinks ≡ ok rdata))
      → ((rule : String) → (write_stats_match env daemon_id request.src_ip rule w1).0 ≡ ok tt)
      → ((message : Message T) (w' : T.World)
          → (info : T.ResponseInfo) × (w'' : T.World) × (env.hickory.send_response message w'
              ≡ (value info, w'')))
      → (f : String) × (i : ℕ) × (v : String) × (rdata : RData T) × (info : T.ResponseInfo)
        × (w' : T.World) × Mem f d.filters
        × Within 1 (length (labels (env.hickory.name_to_string name))) i
        × (active rules
              (env.hickory.type_to_string request.query_type)
              (rule_key f (suffix (labels (env.hickory.name_to_string name)) i))
            ≡ some v)
        × (lie env v request.query_type d.sinks ≡ ok rdata)
        × (env.hickory.send_response
              (lie_message request name rdata)
              (write_stats_match env daemon_id request.src_ip
                (rule_key f (suffix (labels (env.hickory.name_to_string name)) i))
                w1).1
            ≡ (value info, w'))
        × (handle_request env daemon_id config request w ≡ (ok info, w'))
  handle_request-lies config d rules request name w w1 on has op type named asked short stats reads
        filter_name k rule_val mem within act valid matched sends =
      let dnssec = wants_dnssec env request.edns in
      let conn : Conn T = record { header = lent request; world = w1 } in
      let (f, i, v, rdata, m, bound, act', good, run) =
        filter-blocks env daemon_id name request.query_type request.src_ip d.sinks d.filters dnssec
          rules conn reads short filter_name k rule_val mem within act valid matched in
      let rule = rule_key f (suffix (labels (env.hickory.name_to_string name)) i) in
      let w2 = (write_stats_match env daemon_id request.src_ip rule w1).1 in
      let (info, w', sent) = sends (lie_message request name rdata) w2 in
      let asks =
        records_for-filter config d name request.query_type request.src_ip dnssec on has asked in
      (
        f,
        i,
        v,
        rdata,
        info,
        w',
        m,
        bound,
        act',
        good,
        sent,
        handle_request-sends config request name rdata info w w1 w2 w' op type named stats
            (ap (λ (run : Exec T.Fault (Conn T) (SortedRecords T)). run conn) asks ∙ run) sent,
      )
