-- ===== src/Tests/Deciding.antt =====
-- The rules on names: a name that is lied about, a name that is forwarded.
use mathlib.Core.List.{mem-cons_self, Mem}
use dnsliar_rs.Base.{
  ℕ, Bool, false, Option, none, if◌then◌else◌, ◌≤◌, String, ◌≡◌, refl, true, some, [], ◌∷◌, arith,
  length, inl,
}
use dnsliar_rs.Base.Text.{join, str_eq}
use dnsliar_rs.Net.{v4}
use dnsliar_rs.Exec.{ok, ◌>>=◌}
use dnsliar_rs.Exec.Safe.{Safe}
use dnsliar_rs.Dns.{RecordType, RData}
use dnsliar_rs.Resolver.{Conn}
use dnsliar_rs.Env.{on_world}
use dnsliar_rs.RedisMod.{write_stats_match}
use dnsliar_rs.Filtering.{lie, filter, filter_resolution, rule_key, labels, order}
use dnsliar_rs.Filtering.Order.{Within}
use dnsliar_rs.Filtering.Rules.{suffix, Rules, Reads, active, candidates, find_active}
use dnsliar_rs.Filtering.Decision.{
  one_record, filter-eq-decision, filter-forwards, filter-blocks, decision,
}
use dnsliar_rs.Filtering.Total.{filter-Safe}
use dnsliar_rs.Tests.Toy.{
  toy_types, toy_env, toy_laws, toy_header, toy_data, toy_rule, toy_enabled, ip4,
}

abbrev pub toy_rules : Rules
toy_rules = record { field_of = toy_rule; is_enabled = toy_enabled }

abbrev fresh : Conn toy_types
fresh = record { header = toy_header; world = 0 }

toy_rules-Reads : Reads toy_env toy_rules 0
toy_rules-Reads = record { hget = λ key field. refl; enabled = λ key. refl }

pub com_short : length (labels "www.example.com.") ≤ 255
unfolding labels
com_short = omega arith

pub com_labels : labels "www.example.com." ≡ "www" ∷ "example" ∷ "com" ∷ []
unfolding labels
com_labels = refl

-- The sink is the answer, and both statistics are written.
filter_test :
    filter toy_env "one" "www.example.com." RecordType.a
      (v4 (ip4 5))
      toy_data.sinks
      toy_data.filters
      true
      fresh
    ≡ (
      ok (record {
        answer = record { name = "www.example.com."; ttl = 3600; rdata = RData.a (ip4 1) } ∷ [];
        name_servers = [];
        soas = [];
        additional = [];
      }),
      record fresh { world = 2 },
    )
unfolding filter ◌>>=◌ on_world rule_key write_stats_match join
filter_test = refl

filter-eq-decision_example :
    filter toy_env "one" "www.example.com." RecordType.a
      (v4 (ip4 5))
      toy_data.sinks
      toy_data.filters
      true
      fresh
    ≡ decision toy_env "one" "www.example.com." RecordType.a
        (v4 (ip4 5))
        toy_data.sinks
        toy_data.filters
        true
        (find_active toy_rules "A" (
          candidates
            (labels "www.example.com.")
            toy_data.filters
            (order (length (labels "www.example.com.")))))
        fresh
filter-eq-decision_example =
    filter-eq-decision toy_env "one" "www.example.com." RecordType.a (v4 (ip4 5)) toy_data.sinks
      toy_data.filters true toy_rules fresh toy_rules-Reads com_short

filter-forwards_example :
    filter toy_env "one" "www.example.com." RecordType.aaaa
      (v4 (ip4 5))
      toy_data.sinks
      toy_data.filters
      true
      fresh
    ≡ filter_resolution toy_env "one" "www.example.com." RecordType.aaaa toy_data.sinks true fresh
filter-forwards_example =
    filter-forwards toy_env "one" "www.example.com." RecordType.aaaa (v4 (ip4 5)) toy_data.sinks
      toy_data.filters true toy_rules fresh toy_rules-Reads com_short (λ filter k m w. refl)

pub com_active :
    active toy_rules "A" (rule_key "ads" (suffix (labels "www.example.com.") 2)) ≡ some "1"
unfolding rule_key labels join
com_active = refl

pub com_labels-Within : Within 1 (length (labels "www.example.com.")) 2
unfolding labels
com_labels-Within = (omega arith, omega arith)

abbrev chosen : Bool → Bool → Bool → Option String
chosen a b c = if a then some "1" else if b then some "192.0.2.9" else if c then some "1" else none

abbrev if_on : Bool → Option String → Option String
if_on on none = none
if_on on (some rule_val) = if on then some rule_val else none

-- Each rule gives a lie.
pub toy_lie :
    (key v : String)
    → active toy_rules "A" key ≡ some v
    → (d : RData toy_types) × (lie toy_env v RecordType.a toy_data.sinks ≡ ok d)
unfolding lie
toy_lie key v =
    go (str_eq key "DBL;R;ads;example.com") (str_eq key "DBL;R;ads;org")
      (str_eq key "DBL;R;ads;off.net") (toy_enabled key) v
  where
    go :
        (a b c on : Bool) (v : String)
        → if_on on (chosen a b c) ≡ some v
        → (d : RData toy_types) × (lie toy_env v RecordType.a toy_data.sinks ≡ ok d)
    go true b c true v e = let same : "1" ≡ v = cc in rw (← same) (RData.a (ip4 1), refl)
    go false true c true v e =
        let same : "192.0.2.9" ≡ v = cc in rw (← same) (RData.a (ip4 9), refl)
    go false false true true v e = let same : "1" ≡ v = cc in rw (← same) (RData.a (ip4 1), refl)
    go false false false true v e = cc
    go true b c false v e = cc
    go false true c false v e = cc
    go false false true false v e = cc
    go false false false false v e = cc

toy_stats :
    (rule : String) → (write_stats_match toy_env "one" (v4 (ip4 5)) rule fresh.world).0 ≡ ok tt
unfolding write_stats_match ◌>>=◌
toy_stats rule = refl

filter-blocks_example :
    (f : String) × (i : ℕ) × (v : String) × (d : RData toy_types) × Mem f toy_data.filters
    × Within 1 (length (labels "www.example.com.")) i
    × (active toy_rules "A" (rule_key f (suffix (labels "www.example.com.") i)) ≡ some v)
    × (lie toy_env v RecordType.a toy_data.sinks ≡ ok d)
    × (filter toy_env "one" "www.example.com." RecordType.a
          (v4 (ip4 5))
          toy_data.sinks
          toy_data.filters
          true
          fresh
        ≡ (
          ok (one_record "www.example.com." d),
          record fresh {
            world =
                (write_stats_match toy_env "one"
                  (v4 (ip4 5))
                  (rule_key f (suffix (labels "www.example.com.") i))
                  fresh.world).1;
          },
        ))
filter-blocks_example =
    filter-blocks toy_env "one" "www.example.com." RecordType.a (v4 (ip4 5)) toy_data.sinks
      toy_data.filters true toy_rules fresh toy_rules-Reads com_short "ads" 2 "1" mem-cons_self
      com_labels-Within com_active
      (λ f i v m w act. toy_lie (rule_key f (suffix (labels "www.example.com.") i)) v act) toy_stats

filter-Safe_example : Safe (
    filter toy_env "one" "www.example.com." RecordType.a
      (v4 (ip4 5))
      toy_data.sinks
      toy_data.filters
      true)
filter-Safe_example =
    filter-Safe toy_env "one" "www.example.com." RecordType.a (v4 (ip4 5)) toy_data.sinks (inl refl)
      toy_data.filters true toy_laws com_short
