-- ===== src/Filtering/Rules.antt =====
-- `filter` against its specification: the first active rule among the candidates decides, while
-- Redis answers from one set of rules.
use dnsliar_rs.Base.{
  ℕ, ◌-◌, String, ◌≡◌, refl, Bool, Option, none, some, List, [], ◌∷◌, ◌++◌, map, arith, length,
  drop, All, inl, inr, Bool-cases, Option-cases, if◌then◌else◌, le→leb,
}
use dnsliar_rs.Base.Text.{join}
use dnsliar_rs.Net.{Ipv4Addr, Ipv6Addr, IpAddr}
use dnsliar_rs.Exec.{Outcome, ok, err, panic, Exec, value, pure, lift, first_some, ◌>>=◌, ◌>>◌}
use dnsliar_rs.Dns.{RData, Types, RecordType}
use dnsliar_rs.Resolver.{SortedRecords, Conn}
use dnsliar_rs.Env.{Env, on_world}
use dnsliar_rs.RedisMod.{write_stats_match}
use dnsliar_rs.Filtering.{rule_key, domain_at, lie, single_answer, try_rule, try_domain}
use dnsliar_rs.Filtering.Order.{Within}

-- The rules of the blacklist: the fields of each hash, and whether `enabled` is set.
pub record Rules : Type 0 where
  pub field_of : String → String → Option String
  pub is_enabled : String → Bool

-- In the world `w`, Redis answers from `rules`, and the world stays.
pub record Reads {T : Types} (env : Env T) (rules : Rules) (w : T.World) : Type 0 where
  pub hget :
      (key field : String) → env.redis.hget key field w ≡ (value (rules.field_of key field), w)
  pub enabled :
      (key : String) → env.redis.hget_bool key "enabled" w ≡ (value (rules.is_enabled key), w)

-- The last `index` labels of a name.
abbrev pub suffix : List String → ℕ → String
suffix names index = join "." (drop (length names - index) names)

abbrev flat_map : {A B : Type 0} → (A → List B) → List A → List B
flat_map f [] = []
flat_map f (x ∷ xs) = f x ++ flat_map f xs

-- The keys of the rules that may apply, in the order in which they are tried.
abbrev pub candidates : List String → List String → List ℕ → List String
candidates names filters =
    flat_map (λ index. map (λ filter. rule_key filter (suffix names index)) filters)

-- The value of a rule for a type of query, if the rule is there and enabled.
abbrev pub active : Rules → String → String → Option String
active rules type rule = elim (rules.field_of rule type) [
  | none ↦ none
  | some rule_val ↦ if rules.is_enabled rule then some rule_val else none
]

abbrev pub or_else : {A : Type 0} → Option A → Option A → Option A
or_else none other = other
or_else (some a) other = some a

abbrev pub tagged : String → Option String → Option (String × String)
tagged rule none = none
tagged rule (some rule_val) = some (rule, rule_val)

-- The first active rule, and its value.
abbrev pub find_active : Rules → String → List String → Option (String × String)
find_active rules type [] = none
find_active rules type (rule ∷ rest) =
    or_else (tagged rule (active rules type rule)) (find_active rules type rest)

pub find_active-append :
    (rules : Rules) (type : String) (xs ys : List String)
    → find_active rules type (xs ++ ys)
      ≡ or_else (find_active rules type xs) (find_active rules type ys)
find_active-append rules type [] ys = refl
find_active-append rules type (x ∷ xs) ys = ground (arith, find_active-append rules type xs ys)

module _ {T : Types} (env : Env T) (daemon_id : String) (query_name : T.Name)
    (query_type : RecordType) (src_ip : IpAddr) (sinks : Ipv4Addr × Ipv6Addr) where
  -- What an active rule does: the statistics are written, and the lie is the only answer.
  unfoldable pub answer_lie : String → String → Exec T.Fault (Conn T) (SortedRecords T)
  answer_lie rule rule_val = do
    rdata ← lift (lie env rule_val query_type sinks)
    on_world (write_stats_match env daemon_id src_ip rule)
    pure (single_answer query_name rdata)

  -- The result of a search: nothing found, or the lie.
  abbrev pub found_rule :
      Option (String × String) → Exec T.Fault (Conn T) (Option (SortedRecords T))
  found_rule none = pure none
  found_rule (some (rule, rule_val)) = answer_lie rule rule_val >>= λ sorted. pure (some sorted)

  regroup :
      (r : Outcome T.Fault (RData T)) (m : Exec T.Fault (Conn T) (Unit {0})) (conn : Conn T)
      → (lift r >>= λ rdata. m >> pure (some (single_answer query_name rdata))) conn
        ≡ ((lift r >>= λ rdata. m >> pure (single_answer query_name rdata)) >>= λ sorted.
              pure (some sorted))
            conn
  unfolding ◌>>=◌
  regroup (ok d) m conn = go (m conn).0 (m conn).1
    where
      go :
          (o : Outcome T.Fault (Unit {0})) (c : Conn T)
          → (lift o >> pure (some (single_answer query_name d))) c
            ≡ ((lift o >> pure (single_answer query_name d)) >>= λ sorted. pure (some sorted)) c
      go (ok _) c = refl
      go (err e) c = refl
      go panic c = refl
  regroup (err e) m conn = refl
  regroup panic m conn = refl

  abbrev type_text : String
  type_text = env.hickory.type_to_string query_type

  -- The body of the inner loop.
  try_rule_lem :
      (rules : Rules) (conn : Conn T) (reads : Reads env rules conn.world) (rule : String)
      → try_rule env daemon_id query_name query_type src_ip sinks rule conn
        ≡ found_rule (tagged rule (active rules type_text rule)) conn
  unfolding try_rule on_world answer_lie ◌>>=◌
  try_rule_lem rules conn reads rule = elim (Option-cases (rules.field_of rule type_text)) [
    | inl e ↦ rw (reads.hget rule type_text, e, active) refl
    | inr (v, e) ↦ elim (Bool-cases (rules.is_enabled rule)) [
      | inl b ↦
          rw (reads.hget rule type_text, e, reads.enabled rule, active, b)
            (regroup (lie env v query_type sinks)
              (on_world (write_stats_match env daemon_id src_ip rule)) conn)
      | inr b ↦ rw (reads.hget rule type_text, e, reads.enabled rule, active, b) refl
    ]
  ]

  -- A search goes on past what was not found, and stops at a lie.
  found_rule-or_else :
      (o p : Option (String × String)) (m : Exec T.Fault (Conn T) (Option (SortedRecords T)))
      (conn : Conn T)
      → m conn ≡ found_rule p conn
      → (found_rule o >>= λ found. elim found [ none ↦ m | some s ↦ pure (some s) ]) conn
        ≡ found_rule (or_else o p) conn
  unfolding ◌>>=◌
  found_rule-or_else none p m conn e = e
  found_rule-or_else (some (rule, v)) p m conn e =
      go (answer_lie rule v conn).0 (answer_lie rule v conn).1
    where
      go :
          (r : Outcome T.Fault (SortedRecords T)) (c : Conn T)
          → ((lift r >>= λ sorted. pure (some sorted)) >>= λ found. elim found [
            | none ↦ m
            | some s ↦ pure (some s)
          ])
              c
            ≡ (lift r >>= λ sorted. pure (some sorted)) c
      go (ok s) c = refl
      go (err e) c = refl
      go panic c = refl

  -- One iteration of a search whose body is known at this state.
  first_some-step :
      {A : Type 0} (body : A → Exec T.Fault (Conn T) (Option (SortedRecords T))) (x : A)
      (xs : List A) (o p : Option (String × String)) (conn : Conn T)
      → body x conn ≡ found_rule o conn
      → first_some body xs conn ≡ found_rule p conn
      → first_some body (x ∷ xs) conn ≡ found_rule (or_else o p) conn
  unfolding first_some ◌>>=◌
  first_some-step body x xs o p conn e h = rw e (found_rule-or_else o p (first_some body xs) conn h)

  module _ (rules : Rules) (conn : Conn T) (reads : Reads env rules conn.world) where
    -- The inner loop, over the filters.
    try_filters_lem :
        (domain : String) (filters : List String)
        → first_some
            (λ filter.
              try_rule env daemon_id query_name query_type src_ip sinks (rule_key filter domain))
            filters
            conn
          ≡ found_rule
              (find_active rules type_text (map (λ filter. rule_key filter domain) filters))
              conn
    try_filters_lem domain [] = unfold first_some in refl
    try_filters_lem domain (f ∷ fs) =
        first_some-step
          (λ filter.
            try_rule env daemon_id query_name query_type src_ip sinks (rule_key filter domain))
          f fs _ _ conn (try_rule_lem rules conn reads (rule_key f domain))
          (try_filters_lem domain fs)

    -- The outer loop, over the suffixes.
    pub try_domains_lem :
        (names filters : List String) (indices : List ℕ)
        → All (Within 1 (length names)) indices
        → first_some
            (try_domain env daemon_id query_name query_type src_ip sinks filters names)
            indices
            conn
          ≡ found_rule (find_active rules type_text (candidates names filters indices)) conn
    try_domains_lem names filters [] h = unfold first_some in refl
    try_domains_lem names filters (i ∷ is) h =
        rw
          (find_active-append rules type_text
            (map (λ filter. rule_key filter (suffix names i)) filters)
            (candidates names filters is))
          (first_some-step
            (try_domain env daemon_id query_name query_type src_ip sinks filters names) i is _ _
            conn (try_domain_lem i h.0) (try_domains_lem names filters is h.1))
      where
        try_domain_lem :
            (i : ℕ)
            → Within 1 (length names) i
            → try_domain env daemon_id query_name query_type src_ip sinks filters names i conn
              ≡ found_rule
                  (find_active rules type_text
                    (map (λ filter. rule_key filter (suffix names i)) filters))
                  conn
        try_domain_lem i w =
            unfold try_domain domain_at ◌>>=◌ in
            rw (le→leb i (length names) w.1) (try_filters_lem (suffix names i) filters)
