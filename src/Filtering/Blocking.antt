-- ===== src/Filtering/Blocking.antt =====
-- The blocked addresses: what `filter_resolution` does with each answer, while Redis answers from
-- one set of blocked addresses.
use dnsliar_rs.Base.{
  String, ◌≡◌, refl, Bool, true, false, some, none, List, [], ◌∷◌, arith, inl, inr, Bool-cases,
  Option-cases, is_empty, ◌||◌,
}
use dnsliar_rs.Base.Text.{◌<>◌}
use dnsliar_rs.Net.{Ipv4Addr, Ipv6Addr, IpAddr, v4, v6, show_ip}
use dnsliar_rs.Exec.{ok-injective, lift-pure, and_then-eq-ok, Outcome, ok, and_then, value, ◌>>=◌}
use dnsliar_rs.Dns.{Types, RecordType, RData, Record, ip_addr}
use dnsliar_rs.Resolver.{SortedRecords, Conn, resolve}
use dnsliar_rs.Env.{Env, on_world}
use dnsliar_rs.Filtering.{check_answer, filter_resolution, sink_rdata}
use dnsliar_rs.Filtering.Resolution.{replaced}

-- In the world `w`, Redis says of each address whether it is blocked, and the world stays.
pub record Blocks {T : Types} (env : Env T) (daemon_id : String) (blocked : IpAddr → Bool)
    (w : T.World) : Type 0 where
  pub reads :
      (ip : IpAddr)
      → env.redis.sismember ("DBL;blocked-ips;" <> daemon_id) (show_ip env.ip ip) w
        ≡ (value (blocked ip), w)

abbrev is_blocked : {T : Types} → (IpAddr → Bool) → RData T → Bool
is_blocked blocked d = elim (ip_addr d) [ none ↦ false | some ip ↦ blocked ip ]

-- Some record holds a blocked address.
abbrev pub any_blocked : {T : Types} → (IpAddr → Bool) → List (Record T) → Bool
any_blocked blocked [] = false
any_blocked blocked (r ∷ rs) = is_blocked blocked r.rdata || any_blocked blocked rs

module _ {T : Types} {sinks : Ipv4Addr × Ipv6Addr} (blocked : IpAddr → Bool)
    (b4 : blocked (v4 sinks.0) ≡ false) (b6 : blocked (v6 sinks.1) ≡ false) where
  sink-unblocked :
      (query_type : RecordType) (d : RData T)
      → sink_rdata query_type sinks ≡ ok d
      → is_blocked blocked d ≡ false
  unfolding sink_rdata
  sink-unblocked RecordType.a d p = rw (← ok-injective p) b4
  sink-unblocked RecordType.aaaa d p = rw (← ok-injective p) b6
  sink-unblocked _ d p = cc

module _ {T : Types} (env : Env T) (daemon_id : String) (query_name : T.Name)
    (query_type : RecordType) (sinks : Ipv4Addr × Ipv6Addr) (blocked : IpAddr → Bool) where
  -- The sections that are sent: those of the forwarder, or the sink in place of all answers.
  abbrev pub guarded : Bool → SortedRecords T → Outcome T.Fault (SortedRecords T)
  guarded true sorted =
      and_then (sink_rdata query_type sinks) (λ rdata. ok (replaced query_name rdata sorted))
  guarded false sorted = ok sorted

  check_answer-steady :
      (sorted : SortedRecords T) (rs : List (Record T)) (conn : Conn T)
      → Blocks env daemon_id blocked conn.world
      → check_answer env daemon_id query_name query_type sinks sorted rs conn
        ≡ (guarded (any_blocked blocked rs) sorted, conn)
  unfolding check_answer ◌>>=◌ on_world
  check_answer-steady sorted [] conn h = ground arith
  check_answer-steady sorted (r ∷ rs) conn h = elim (Option-cases (ip_addr r.rdata)) [
    | inl e ↦ rw (e, check_answer, any_blocked, is_blocked) (check_answer-steady sorted rs conn h)
    | inr (ip, e) ↦ elim (Bool-cases (blocked ip)) [
      | inl b ↦
          rw (e, h.reads ip, b, check_answer, any_blocked, is_blocked)
            (lift-pure (sink_rdata query_type sinks) (λ rdata. replaced query_name rdata sorted)
              conn)
      | inr b ↦
          rw (e, h.reads ip, b, check_answer, any_blocked, is_blocked)
            (check_answer-steady sorted rs conn h)
    ]
  ]

  -- With no answers there is nothing to check.
  is_empty-any_blocked :
      (rs : List (Record T)) → is_empty rs ≡ true → any_blocked blocked rs ≡ false
  is_empty-any_blocked rs h = ground arith

  -- While Redis answers from one set of blocked addresses, `filter_resolution` passes the sections of
  -- a lookup on when no answer is blocked; when one is, it replaces all answers by one record, the
  -- sink of the type asked, and keeps the other sections.
  pub filter_resolution-steady :
      (wants_dnssec : Bool) (conn conn' : Conn T) (sorted : SortedRecords T)
      → resolve env.hickory query_name query_type wants_dnssec conn ≡ (ok sorted, conn')
      → Blocks env daemon_id blocked conn'.world
      → filter_resolution env daemon_id query_name query_type sinks wants_dnssec conn
        ≡ (guarded (any_blocked blocked sorted.answer) sorted, conn')
  unfolding filter_resolution ◌>>=◌
  filter_resolution-steady wants_dnssec conn conn' sorted e h =
      rw e (elim (Bool-cases (is_empty sorted.answer)) [
        | inl b ↦ rw (b, is_empty-any_blocked sorted.answer b) refl
        | inr b ↦ rw b (check_answer-steady sorted sorted.answer conn' h)
      ])

  -- While Redis answers from one set of blocked addresses, which holds neither sink, no answer that
  -- leaves `filter_resolution` is blocked.
  pub filter_resolution-unblocked :
      (wants_dnssec : Bool) (conn conn' : Conn T) (sorted s : SortedRecords T)
      → resolve env.hickory query_name query_type wants_dnssec conn ≡ (ok sorted, conn')
      → Blocks env daemon_id blocked conn'.world
      → blocked (v4 sinks.0) ≡ false
      → blocked (v6 sinks.1) ≡ false
      → (filter_resolution env daemon_id query_name query_type sinks wants_dnssec conn).0 ≡ ok s
      → any_blocked blocked s.answer ≡ false
  filter_resolution-unblocked wants_dnssec conn conn' sorted s e h b4 b6 done =
      guarded-unblocked (any_blocked blocked sorted.answer) refl
        (rw (filter_resolution-steady wants_dnssec conn conn' sorted e h) at done)
    where
      guarded-unblocked :
          (b : Bool)
          → any_blocked blocked sorted.answer ≡ b
          → guarded b sorted ≡ ok s
          → any_blocked blocked s.answer ≡ false
      guarded-unblocked true q p =
          let (d, sank, sent) = and_then-eq-ok _ _ p in
          rw (← ok-injective sent, sink-unblocked blocked b4 b6 query_type d sank) refl
      guarded-unblocked false q p = rw (← ok-injective p) q
