-- ===== src/RedisCtl/Rules/Disabled.antt =====
-- Rules that the tool disables, and the daemon's `filter` after it.
use mathlib.Core.List.{Mem}
use dnsliar_rs.Base.{
  ℕ, ◌≤◌, ◌+◌, String, ◌≡◌, refl, sym, ap₂, ◌∙◌, Bool, true, false, ◌&&◌, ◌⊎◌, Option, none, some,
  List, [], ◌∷◌, inl, inr, if◌then◌else◌, Bool-cases, Option-cases, arith, length,
}
use dnsliar_rs.Base.Text.{str_eq, eq_iff, ◌<>◌}
use dnsliar_rs.Net.{Ipv4Addr, Ipv6Addr, IpAddr}
use dnsliar_rs.Exec.{value}
use dnsliar_rs.Dns.{Types, RecordType, Header}
use dnsliar_rs.Env.{Env}
use dnsliar_rs.Filtering.{rule_key, filter, filter_resolution, labels}
use dnsliar_rs.Filtering.Order.{Within}
use dnsliar_rs.Filtering.Rules.{Rules, Reads, suffix, active}
use dnsliar_rs.Filtering.Decision.{filter-forwards}
use dnsliar_rs.RedisCtl.{done, success, print, ◌>>=◌, Connection}
use dnsliar_rs.RedisCtl.Feed.{contains}
use dnsliar_rs.RedisCtl.Rules.{set_enabled, switch, disable}

-- The rules after HSET of the field `enabled` of one rule to "0".
abbrev pub without : Rules → String → Rules
without rules key = record {
  field_of = λ k field.
      if str_eq k key && str_eq field "enabled" then some "0" else rules.field_of k field;
  is_enabled = λ k. if str_eq k key then false else rules.is_enabled k;
}

abbrev pub without_all : Rules → List String → Rules
without_all rules [] = rules
without_all rules (key ∷ keys) = without_all (without rules key) keys

-- The connection of the tool and the one of the daemon lead to one Redis server, which answers:
-- HSET of the field `enabled` to "0" disables the rule, and leaves the rest.
pub record SharedFlags {T : Types} (env : Env T) (connection : Connection T.World T.Fault)
    : Type 0 where
  pub hset_reads :
      (rules : Rules) (key : String) (w : T.World)
      → Reads env rules w
      → (n : ℕ) × (w' : T.World) × (connection.hset key "enabled" "0" w ≡ (value n, w'))
        × Reads env (without rules key) w'
  pub println_reads :
      (rules : Rules) (text : String) (w : T.World)
      → Reads env rules w
      → Reads env rules (connection.println text w)

without_all-other :
    (rules : Rules) (keys : List String) (key : String)
    → contains keys key ≡ false
    → (without_all rules keys).is_enabled key ≡ rules.is_enabled key
without_all-other rules [] key e = refl
without_all-other rules (k ∷ ks) key e =
    without_all-other (without rules k) ks key (ground arith)
    ∙ ground (arith, eq_iff k key, eq_iff key k)

without_all-disabled :
    (rules : Rules) (keys : List String) (key : String)
    → contains keys key ≡ true
    → (without_all rules keys).is_enabled key ≡ false
without_all-disabled rules [] key e = cc
without_all-disabled rules (k ∷ ks) key e = elim (Bool-cases (contains ks key)) [
  | inl later ↦ without_all-disabled (without rules k) ks key later
  | inr here ↦
      without_all-other (without rules k) ks key here ∙ ground (arith, eq_iff k key, eq_iff key k)
]

without_all-fields :
    (rules : Rules) (keys : List String) (key field : String)
    → str_eq field "enabled" ≡ false
    → (without_all rules keys).field_of key field ≡ rules.field_of key field
without_all-fields rules [] key field e = refl
without_all-fields rules (k ∷ ks) key field e =
    without_all-fields (without rules k) ks key field e ∙ ground arith

-- `active`, of the value and the flag.
abbrev gate : Option String → Bool → Option String
gate o b = elim o [ none ↦ none | some rule_val ↦ if b then some rule_val else none ]

without_all-inactive :
    (rules : Rules) (keys : List String) (key type : String)
    → str_eq type "enabled" ≡ false
    → (active rules type key ≡ none) ⊎ (contains keys key ≡ true)
    → active (without_all rules keys) type key ≡ none
without_all-inactive rules keys key type e h = elim (Bool-cases (contains keys key)) [
  | inl there ↦ elim (Option-cases ((without_all rules keys).field_of key type)) [
    | inl n ↦ rw (active, n) refl
    | inr (v, s) ↦ rw (active, s, without_all-disabled rules keys key there) refl
  ]
  | inr absent ↦ elim h [
    | inl quiet ↦
        ap₂ gate (without_all-fields rules keys key type e)
          (without_all-other rules keys key absent)
        ∙ quiet
    | inr there ↦ absurd (true-ne-false (sym there ∙ absent))
  ]
]
  where
    true-ne-false : true ≡ false → ⊥
    true-ne-false h = cc

module _ {T : Types} (env : Env T) (connection : Connection T.World T.Fault)
    (shared : SharedFlags env connection) where
  set_enabled_run :
      (keys : List String) (cnt : ℕ) (rules : Rules) (w : T.World)
      → Reads env rules w
      → (cnt' : ℕ) × (w' : T.World) × (set_enabled connection "0" keys cnt w ≡ (done cnt', w'))
        × Reads env (without_all rules keys) w'
  unfolding set_enabled
  set_enabled_run [] cnt rules w reads = (cnt, w, refl, reads)
  set_enabled_run (key ∷ keys) cnt rules w reads =
      let (n, w1, set, reads1) = shared.hset_reads rules key w reads in
      let (cnt', w', run, reads') = set_enabled_run keys (cnt + n) (without rules key) w1 reads1 in
      (cnt', w', rw set run, reads')

  switch_run :
      (pattern : String) (keys : List String) (rules : Rules) (w : T.World)
      → Reads env rules w
      → (w' : T.World) × (switch connection "0" " rule(s) were disabled" pattern keys w
          ≡ (done success, w'))
        × Reads env (without_all rules keys) w'
  unfolding ◌>>=◌ print
  switch_run pattern [] rules w reads =
      (_, refl, shared.println_reads rules ("No match for: " <> pattern) w reads)
  switch_run pattern (key ∷ keys) rules w reads =
      let (cnt, w1, run, reads1) = set_enabled_run (key ∷ keys) 0 rules w reads in
      let text = connection.show_usize cnt <> " rule(s) were disabled" in
      (connection.println text w1, rw run refl, shared.println_reads _ text w1 reads1)

  -- The tool and the daemon share one Redis, which answers from one set of rules, and SCAN replies
  -- `keys` to the pattern. Then `disable` exits with success, and in the world after it the
  -- daemon's `filter` forwards each question for a name of which every suffix has, in every
  -- configured filter, no enabled rule of the type asked before, or one whose key is among `keys`.
  -- This is for names of up to 255 labels, and needs that hickory does not write the type as
  -- "enabled".
  pub disable-filter :
      (filter_name pattern : String) (keys : List String) (rules : Rules) (w w1 : T.World)
      → connection.scan_match (rule_key filter_name pattern) w ≡ (value keys, w1)
      → Reads env rules w1
      → (daemon_id : String) (query_name : T.Name) (query_type : RecordType) (src_ip : IpAddr)
        (sinks : Ipv4Addr × Ipv6Addr) (filters : List String) (wants_dnssec : Bool)
        (header : Header)
      → length (labels (env.hickory.name_to_string query_name)) ≤ 255
      → str_eq (env.hickory.type_to_string query_type) "enabled" ≡ false
      → ((f : String) (k : ℕ)
          → Mem f filters
          → Within 1 (length (labels (env.hickory.name_to_string query_name))) k
          → (active rules
                (env.hickory.type_to_string query_type)
                (rule_key f (suffix (labels (env.hickory.name_to_string query_name)) k))
              ≡ none)
            ⊎ (contains keys
                  (rule_key f (suffix (labels (env.hickory.name_to_string query_name)) k))
                ≡ true))
      → (w' : T.World) × (disable connection filter_name pattern w ≡ (done success, w'))
        × (filter env daemon_id query_name query_type src_ip sinks filters wants_dnssec
              (record { header = header; world = w' })
            ≡ filter_resolution env daemon_id query_name query_type sinks wants_dnssec
                (record { header = header; world = w' }))
  unfolding disable ◌>>=◌
  disable-filter filter_name pattern keys rules w w1 scan reads daemon_id query_name query_type
        src_ip sinks filters wants_dnssec header short type quiet =
      let (w', run, reads') = switch_run pattern keys rules w1 reads in
      (
        w',
        rw scan run,
        filter-forwards env daemon_id query_name query_type src_ip sinks filters wants_dnssec
            (without_all rules keys) (record { header = header; world = w' }) reads' short
            (λ f k m within.
              without_all-inactive rules keys
                (rule_key f (suffix (labels (env.hickory.name_to_string query_name)) k))
                (env.hickory.type_to_string query_type) type (quiet f k m within)),
      )
