-- ===== src/Filtering/Decision.antt =====
-- Which queries `filter` lies to, and which it forwards.
use mathlib.Core.List.{Mem}
use dnsliar_rs.Base.{
  sym, ap, ◌∙◌, ℕ, ◌≤◌, String, ◌≡◌, refl, Bool, Option, none, some, List, [], ◌∷◌, arith, length,
  Option-cases, inl, inr,
}
use dnsliar_rs.Base.Text.{pop, split-cons}
use dnsliar_rs.Net.{Ipv4Addr, Ipv6Addr, IpAddr}
use dnsliar_rs.Exec.{panic, err, lift, pure, Outcome, ok, Exec, ◌>>=◌}
use dnsliar_rs.Dns.{Types, RecordType, RData}
use dnsliar_rs.Resolver.{SortedRecords, Conn}
use dnsliar_rs.Env.{Env, on_world}
use dnsliar_rs.RedisMod.{write_stats_match}
use dnsliar_rs.Filtering.{lie, rule_key, order, labels, filter, filter_resolution}
use dnsliar_rs.Filtering.Candidates.{candidates-mem}
use dnsliar_rs.Filtering.Order.{Within, order_bounds}
use dnsliar_rs.Filtering.Rules.{
  Rules, Reads, suffix, candidates, active, find_active, answer_lie, found_rule, try_domains_lem,
}
use dnsliar_rs.Filtering.Search.{
  find_active-inactive, candidates_quiet, find_active-active, candidates_from,
}

pub one_label : (name : String) → 1 ≤ length (labels name)
unfolding labels
one_label name = let (w, ws, e) = split-cons b'.' (pop name) in rw e (omega arith)

-- One record in the answer section, and nothing else.
abbrev pub one_record : {T : Types} → T.Name → RData T → SortedRecords T
one_record name rdata = record {
  answer = record { name = name; ttl = 3600; rdata = rdata } ∷ [];
  name_servers = [];
  soas = [];
  additional = [];
}

module _ {T : Types} (env : Env T) (daemon_id : String) (query_name : T.Name)
    (query_type : RecordType) (src_ip : IpAddr) (sinks : Ipv4Addr × Ipv6Addr)
    (filters : List String) (wants_dnssec : Bool) where
  abbrev names_of : List String
  names_of = labels (env.hickory.name_to_string query_name)

  -- What is done with the first active rule, or without one.
  abbrev pub decision : Option (String × String) → Exec T.Fault (Conn T) (SortedRecords T)
  decision none = filter_resolution env daemon_id query_name query_type sinks wants_dnssec
  decision (some (rule, rule_val)) =
      answer_lie env daemon_id query_name query_type src_ip sinks rule rule_val

  decision_lem :
      (o : Option (String × String)) (conn : Conn T)
      → (found_rule env daemon_id query_name query_type src_ip sinks o >>= λ found. elim found [
        | none ↦ decision none
        | some s ↦ pure s
      ])
          conn
        ≡ decision o conn
  unfolding ◌>>=◌
  decision_lem none conn = refl
  decision_lem (some (rule, v)) conn =
      go (answer_lie env daemon_id query_name query_type src_ip sinks rule v conn).0 _
    where
      go :
          (r : Outcome T.Fault (SortedRecords T)) (c : Conn T)
          → ((lift r >>= λ s. pure (some s)) >>= λ found. elim found [
            | none ↦ decision none
            | some s ↦ pure s
          ])
              c
            ≡ (r, c)
      go (ok s) c = refl
      go (err e) c = refl
      go panic c = refl

  module _ (rules : Rules) (conn : Conn T) (reads : Reads env rules conn.world)
      (short : length names_of ≤ 255) where
    -- While Redis answers from one set of rules, `filter` does what the first active rule says, in the
    -- order of the candidates: the suffixes of the name in the fixed order, and for each the filters
    -- as they are configured. Without an active rule it asks the forwarders. For names of up to 255
    -- labels.
    pub filter-eq-decision :
        filter env daemon_id query_name query_type src_ip sinks filters wants_dnssec conn
        ≡ decision
            (find_active rules
              (env.hickory.type_to_string query_type)
              (candidates names_of filters (order (length names_of))))
            conn
    unfolding filter ◌>>=◌
    filter-eq-decision =
        rw
          (try_domains_lem env daemon_id query_name query_type src_ip sinks rules conn reads
            names_of filters (order (length names_of))
            (order_bounds (length names_of) (one_label (env.hickory.name_to_string query_name))
              short))
          (decision_lem _ conn)

    -- A name none of whose suffixes has an enabled rule in a configured filter, for the type asked, is
    -- forwarded: `filter` is `filter_resolution` there. For names of up to 255 labels, while Redis
    -- answers from one set of rules.
    pub filter-forwards :
        ((filter : String) (k : ℕ)
          → Mem filter filters
          → Within 1 (length names_of) k
          → active rules
              (env.hickory.type_to_string query_type)
              (rule_key filter (suffix names_of k))
            ≡ none)
        → filter env daemon_id query_name query_type src_ip sinks filters wants_dnssec conn
          ≡ filter_resolution env daemon_id query_name query_type sinks wants_dnssec conn
    filter-forwards quiet =
        rw
          (
            filter-eq-decision,
            candidates_quiet rules (env.hickory.type_to_string query_type) names_of filters
                (order (length names_of)) quiet
                (order_bounds (length names_of) (one_label (env.hickory.name_to_string query_name))
                  short),
          )
          refl

    -- The first active rule is tried where some rule is active.
    filter-first :
        (filter_name : String) (k : ℕ) (rule_val : String)
        → Mem filter_name filters
        → Within 1 (length names_of) k
        → active rules
            (env.hickory.type_to_string query_type)
            (rule_key filter_name (suffix names_of k))
          ≡ some rule_val
        → (filter' : String) × (k' : ℕ) × (rule_val' : String) × Mem filter' filters
          × Within 1 (length names_of) k'
          × (active rules
                (env.hickory.type_to_string query_type)
                (rule_key filter' (suffix names_of k'))
              ≡ some rule_val')
          × (filter env daemon_id query_name query_type src_ip sinks filters wants_dnssec conn
              ≡ answer_lie env daemon_id query_name query_type src_ip sinks
                  (rule_key filter' (suffix names_of k'))
                  rule_val'
                  conn)
    filter-first f k v m w h =
        let type : String = env.hickory.type_to_string query_type in
        let keys : List String = candidates names_of filters (order (length names_of)) in
        let bounds =
          order_bounds (length names_of) (one_label (env.hickory.name_to_string query_name))
            short in
        let mem : Mem (rule_key f (suffix names_of k)) keys =
          candidates-mem names_of filters f k (one_label (env.hickory.name_to_string query_name))
            short m w in
        elim (Option-cases (find_active rules type keys)) [
          | inl e ↦ absurd (find_active-inactive rules type keys _ v e h mem)
          | inr ((first, v'), e) ↦
              let (f', k', m', w', same) =
                candidates_from rules type names_of filters (order (length names_of)) first v'
                  bounds e in
              (
                f',
                k',
                v',
                m',
                w',
                ap (active rules type) (sym same) ∙ find_active-active rules type keys first v' e,
                rw (filter-eq-decision, e)
                    (ap
                      (λ (rule : String).
                        answer_lie env daemon_id query_name query_type src_ip sinks rule v' conn)
                      same),
              )
        ]

    -- A good value, and statistics that can be written.
    answer_lie_lem :
        (rule rule_val : String) (d : RData T)
        → lie env rule_val query_type sinks ≡ ok d
        → (write_stats_match env daemon_id src_ip rule conn.world).0 ≡ ok tt
        → answer_lie env daemon_id query_name query_type src_ip sinks rule rule_val conn ≡ (
          ok (one_record query_name d),
          record conn { world = (write_stats_match env daemon_id src_ip rule conn.world).1 },
        )
    unfolding answer_lie on_world ◌>>=◌
    answer_lie_lem rule v d e s = rw (e, s) refl

    -- If some suffix of the name has an enabled rule in a configured filter, for the type asked,
    -- then `filter` does not ask the forwarders: its answer is one record, which has the name that
    -- was asked, a time to live of 3600 seconds, and the data of the lie of an enabled rule of some
    -- suffix of the name in a configured filter; what it does besides is to write the statistics of
    -- the match. This holds for names of up to 255 labels, while Redis answers from one set of
    -- rules, when the value of each enabled rule that may apply gives a lie, that is no error and
    -- no panic, and the statistics can be written.
    pub filter-blocks :
        (filter_name : String) (k : ℕ) (rule_val : String)
        → Mem filter_name filters
        → Within 1 (length names_of) k
        → active rules
            (env.hickory.type_to_string query_type)
            (rule_key filter_name (suffix names_of k))
          ≡ some rule_val
        → ((f : String) (i : ℕ) (v : String)
            → Mem f filters
            → Within 1 (length names_of) i
            → active rules (env.hickory.type_to_string query_type) (rule_key f (suffix names_of i))
              ≡ some v
            → (d : RData T) × (lie env v query_type sinks ≡ ok d))
        → ((rule : String) → (write_stats_match env daemon_id src_ip rule conn.world).0 ≡ ok tt)
        → (f : String) × (i : ℕ) × (v : String) × (d : RData T) × Mem f filters
          × Within 1 (length names_of) i
          × (active rules (env.hickory.type_to_string query_type) (rule_key f (suffix names_of i))
              ≡ some v)
          × (lie env v query_type sinks ≡ ok d)
          × (filter env daemon_id query_name query_type src_ip sinks filters wants_dnssec conn ≡ (
            ok (one_record query_name d),
            record conn {
              world =
                  (write_stats_match env daemon_id src_ip
                    (rule_key f (suffix names_of i))
                    conn.world).1;
            },
          ))
    filter-blocks f k v m w h valid stats =
        let (f', k', v', m', w', act, run) = filter-first f k v m w h in
        let (d, good) = valid f' k' v' m' w' act in
        (
          f',
          k',
          v',
          d,
          m',
          w',
          act,
          good,
          run ∙ answer_lie_lem (rule_key f' (suffix names_of k')) v' d good (stats _),
        )
