-- ===== src/Filtering/Resolution.antt =====
-- `filter_resolution`: which answers reach the client.
use dnsliar_rs.Base.{
  is_empty, String, ◌≡◌, ◌≢◌, refl, Bool, some, List, [], ◌∷◌, All, inl, inr, Bool-cases,
  Option-cases,
}
use dnsliar_rs.Net.{Ipv4Addr, Ipv6Addr, IpAddr}
use dnsliar_rs.Exec.Safe.{
  Safe-bind_of, IsHandled, Safe, Safe-pure, Safe-bind, Safe-redis, Safe-if, Safe-lift,
}
use dnsliar_rs.Env.{Safe-on_world}
use dnsliar_rs.Base.{if◌then◌else◌}
use dnsliar_rs.Exec.{◌>>=◌, continue, pure, Outcome, ok, err, panic}
use dnsliar_rs.Resolver.Total.{resolve-Safe}
use dnsliar_rs.Dns.{HickoryLaws, Types, RecordType, RData, Record, ip_addr, from_rdata}
use dnsliar_rs.Resolver.{SortedRecords, Conn, ttl_1h, resolve}
use dnsliar_rs.Resolver.Answers.{resolve-fits, AddressFits, RecordFits}
use dnsliar_rs.Env.{Env}
use dnsliar_rs.Filtering.{check_answer, filter_resolution, sink_rdata}

module _ {T : Types} (env : Env T) (daemon_id : String) (query_name : T.Name)
    (sinks : Ipv4Addr × Ipv6Addr) (sorted : SortedRecords T) where
  -- With no address among the records, the loop makes no query and changes nothing.
  check_answer-other :
      (query_type : RecordType) (rs : List (Record T)) (conn : Conn T)
      → query_type ≢ RecordType.a
      → query_type ≢ RecordType.aaaa
      → All (RecordFits query_type) rs
      → check_answer env daemon_id query_name query_type sinks sorted rs conn ≡ (ok sorted, conn)
  unfolding check_answer ◌>>=◌
  check_answer-other query_type [] conn na n4 h = refl
  check_answer-other query_type (r ∷ rs) conn na n4 h = elim (Option-cases (ip_addr r.rdata)) [
    | inl e ↦ rw (e, check_answer) (check_answer-other query_type rs conn na n4 h.1)
    | inr (ip, e) ↦ absurd (address-type r.rdata h.0 e)
  ]
    where
      address-type :
          (d : RData T) {ip : IpAddr} → AddressFits query_type d → ip_addr d ≡ some ip → ⊥
      address-type (RData.a ip) f e = na f
      address-type (RData.aaaa ip) f e = n4 f
      address-type _ f e = cc

  sink_rdata-IsHandled :
      (query_type : RecordType) (d : RData T) (ip : IpAddr)
      → AddressFits query_type d
      → ip_addr d ≡ some ip
      → IsHandled (sink_rdata {T = T} query_type sinks)
  unfolding sink_rdata
  sink_rdata-IsHandled query_type (RData.a x) ip f e = rw f tt
  sink_rdata-IsHandled query_type (RData.aaaa x) ip f e = rw f tt
  sink_rdata-IsHandled query_type _ ip f e = cc

  -- The loop does not reach the `unreachable!` when each address is of the type asked.
  check_answer-Safe :
      (query_type : RecordType) (rs : List (Record T))
      → All (RecordFits query_type) rs
      → Safe (check_answer env daemon_id query_name query_type sinks sorted rs)
  unfolding check_answer
  check_answer-Safe query_type [] h = Safe-pure sorted
  check_answer-Safe query_type (r ∷ rs) h = elim (Option-cases (ip_addr r.rdata)) [
    | inl e ↦ rw (e, check_answer) (check_answer-Safe query_type rs h.1)
    | inr (ip, e) ↦
        rw (e, check_answer)
          (Safe-bind _ _ (Safe-on_world _ (Safe-redis _)) (λ blocked.
            Safe-if blocked _ _
              (λ _.
                Safe-bind _ _ (Safe-lift _ (sink_rdata-IsHandled query_type r.rdata ip h.0 e))
                  (λ rdata. Safe-pure _))
              (λ _. check_answer-Safe query_type rs h.1)))
  ]

-- What the client is sent in place of a blocked answer.
abbrev pub replaced : {T : Types} → T.Name → RData T → SortedRecords T → SortedRecords T
replaced query_name rdata sorted = record sorted {
  answer = from_rdata query_name ttl_1h rdata ∷ [];
}

module _ {T : Types} (env : Env T) (daemon_id : String) (query_name : T.Name)
    (query_type : RecordType) (sinks : Ipv4Addr × Ipv6Addr) (wants_dnssec : Bool) where
  after_resolve :
      (r : Outcome T.Fault (SortedRecords T)) (conn : Conn T)
      → query_type ≢ RecordType.a
      → query_type ≢ RecordType.aaaa
      → ((s : SortedRecords T) → r ≡ ok s → All (RecordFits query_type) s.answer)
      → continue r
          (λ sorted.
            if is_empty sorted.answer
            then pure sorted
            else check_answer env daemon_id query_name query_type sinks sorted sorted.answer)
          conn
        ≡ (r, conn)
  unfolding ◌>>=◌
  after_resolve (ok s) conn na n4 fits = elim (Bool-cases (is_empty s.answer)) [
    | inl e ↦ rw e
    | inr e ↦ rw e (
        check_answer-other env daemon_id query_name sinks s query_type s.answer conn na n4
          (fits s refl))
  ]
  after_resolve (err e) conn na n4 fits = refl
  after_resolve panic conn na n4 fits = refl

  -- For a question of another type than A and AAAA, no address is checked against the blocked ones:
  -- the answer is the forwarders', and Redis is not asked.
  pub filter_resolution-other :
      (conn : Conn T)
      → query_type ≢ RecordType.a
      → query_type ≢ RecordType.aaaa
      → filter_resolution env daemon_id query_name query_type sinks wants_dnssec conn
        ≡ resolve env.hickory query_name query_type wants_dnssec conn
  unfolding filter_resolution ◌>>=◌
  filter_resolution-other conn na n4 =
      let found = resolve env.hickory query_name query_type wants_dnssec conn in
      after_resolve found.0 found.1 na n4
        (λ s e. resolve-fits env.hickory query_name query_type wants_dnssec conn e)

module _ {T : Types} (env : Env T) (laws : HickoryLaws env.hickory) (daemon_id : String)
    (query_name : T.Name) (query_type : RecordType) (sinks : Ipv4Addr × Ipv6Addr)
    (wants_dnssec : Bool) where
  -- For every query type, `filter_resolution` does not reach its `unreachable!`, nor does it panic in
  -- `sort_records`, when lookups return typed records.
  pub filter_resolution-Safe :
      Safe (filter_resolution env daemon_id query_name query_type sinks wants_dnssec)
  unfolding filter_resolution
  filter_resolution-Safe =
      Safe-bind_of _ _ (resolve-Safe laws query_name query_type wants_dnssec) (λ conn sorted e.
        Safe-if (is_empty sorted.answer) _ _ (λ _. Safe-pure sorted)
          (λ _.
            check_answer-Safe env daemon_id query_name sinks sorted query_type sorted.answer
              (resolve-fits env.hickory query_name query_type wants_dnssec conn e)))
