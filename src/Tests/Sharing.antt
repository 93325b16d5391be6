-- ===== src/Tests/Sharing.antt =====
-- What the tool writes, and what the daemon then does.
use mathlib.Core.List.{mem-cons_self, Mem}
use dnsliar_rs.Base.{
  ℕ, String, ◌≡◌, refl, true, false, ◌||◌, Option, length, none, some, List, [], ◌∷◌, if◌then◌else◌,
  inl, inr, arith, ◌⊎◌, Bool-cases,
}
use dnsliar_rs.Base.Text.{str_eq, eq_iff, ◌<>◌, join}
use dnsliar_rs.Net.{v4, show_ip}
use dnsliar_rs.Exec.{ok, ◌>>=◌}
use dnsliar_rs.Dns.{RecordType, RData}
use dnsliar_rs.RedisMod.{write_stats_match}
use dnsliar_rs.Filtering.Order.{Within}
use dnsliar_rs.Filtering.Decision.{one_record}
use dnsliar_rs.Tests.Editing.{toy_ip-ReadsBack}
use dnsliar_rs.Config.{filtering_data, setup_filtering}
use dnsliar_rs.Filtering.{lie, filter, filter_resolution, rule_key, labels}
use dnsliar_rs.Filtering.Rules.{Rules, suffix, active}
use dnsliar_rs.Filtering.Blocking.{Blocks}
use dnsliar_rs.RedisCtl.{done, success, code}
use dnsliar_rs.RedisCtl.Feed.{contains}
use dnsliar_rs.RedisCtl.Rules.{parsed, add, disable, type_args}
use dnsliar_rs.RedisCtl.Rules.Applied.{with_rule, added_args, add-filter}
use dnsliar_rs.RedisCtl.Conf.{set_sinks, add_blocked_ips, remove_blocked_ips}
use dnsliar_rs.RedisCtl.Conf.Sinks.{set_sinks-setup_filtering}
use dnsliar_rs.RedisCtl.Conf.Blocked.{blocked_ips-rejects, add_blocked_ips-Blocks}
use dnsliar_rs.RedisCtl.Rules.Disabled.{disable-filter}
use dnsliar_rs.Tests.Toy.{toy_ip, toy_ip-laws, toy_header, ip4, ip6}
use dnsliar_rs.Tests.Deciding.{com_short, com_labels}
use dnsliar_rs.Tests.Shared.{
  shared_types, Store, fields, is_one, shared_env, shared_connection, shared_sets, shared_hashes,
  shared_flags,
}

-- One filter, no sinks, no rules, and one blocked address.
abbrev start : Store
start = record {
  sets = λ key.
      if str_eq key "DBL;filters;one"
      then "ads" ∷ []
      else if str_eq key "DBL;blocked-ips;one"
      then "192.0.2.66" ∷ []
      else [];
  hashes = [];
}

set_sinks-setup_filtering_example :
    (w' : Store) × (filters : List String) × (set_sinks shared_connection "one"
        ("2001:db8::1" ∷ "192.0.2.9" ∷ [])
        start
      ≡ (done success, w'))
    × ((m : String) → contains filters m ≡ shared_sets.has start ("DBL;filters;" <> "one") m)
    × (setup_filtering shared_env "one" w'
        ≡ (ok (filtering_data shared_env "one" (ip4 9, ip6 1) (some filters)), w'))
set_sinks-setup_filtering_example =
    set_sinks-setup_filtering shared_env shared_connection shared_sets "one" toy_ip-laws "192.0.2.9"
      "2001:db8::1" (ip4 9) (ip6 1) refl refl ("2001:db8::1" ∷ "192.0.2.9" ∷ []) (inr refl) start

add_blocked_ips-Blocks_example :
    (w' : Store) × (add_blocked_ips shared_connection "one" toy_ip
        (λ ip. ip)
        ("192.0.2.9" ∷ [])
        start
      ≡ (done success, w'))
    × Blocks shared_env "one"
        (λ ip.
          contains ("192.0.2.9" ∷ []) (show_ip toy_ip ip)
          || contains ("192.0.2.66" ∷ []) (show_ip toy_ip ip))
        w'
add_blocked_ips-Blocks_example =
    add_blocked_ips-Blocks shared_env shared_connection shared_sets "one" (λ ip. ip) "192.0.2.9" []
      ((v4 (ip4 9), refl), tt) (λ ip. contains ("192.0.2.66" ∷ []) (show_ip toy_ip ip)) start
      (record { reads = λ ip. refl })

blocked_ips-rejects_example :
    (add_blocked_ips shared_connection "one" toy_ip
        (λ ip. "no address")
        ("192.0.2.9" ∷ "x" ∷ "y" ∷ [])
        start
      ≡ (done (code 65), start))
    × (remove_blocked_ips shared_connection "one" toy_ip
          (λ ip. "no address")
          ("192.0.2.9" ∷ "x" ∷ "y" ∷ [])
          start
        ≡ (done (code 65), start))
blocked_ips-rejects_example =
    blocked_ips-rejects shared_connection "one" toy_ip (λ ip. "no address") ("192.0.2.9" ∷ []) "x"
      ("y" ∷ []) ((v4 (ip4 9), refl), tt) refl start

abbrev no_rules : Rules
no_rules = record { field_of = λ key field. none; is_enabled = λ key. false }

add_args_test : type_args toy_ip {Fault = ℕ} (some "A") none ≡ done (parsed ("A" ∷ "1" ∷ []))
unfolding type_args
add_args_test = refl

com_suffix : suffix (labels "www.example.com.") 2 ≡ "example.com"
unfolding labels join
com_suffix = refl

shared_stats :
    (rule : String) (w : Store) → (write_stats_match shared_env "one" (v4 (ip4 5)) rule w).0 ≡ ok tt
unfolding write_stats_match ◌>>=◌
shared_stats rule w = refl

add-filter_example :
    (w' : Store) × (f : String) × (i : ℕ) × (v : String) × (d : RData shared_types) × (add
        shared_connection toy_ip "ads" "me" "example.com"
        (some "A")
        none
        start
      ≡ (done success, w'))
    × Mem f ("ads" ∷ [])
    × Within 1 (length (labels "www.example.com.")) i
    × (active
          (with_rule no_rules
            (rule_key "ads" "example.com")
            (added_args shared_env shared_connection shared_hashes "me" start ("A" ∷ "1" ∷ [])))
          "A"
          (rule_key f (suffix (labels "www.example.com.") i))
        ≡ some v)
    × (lie shared_env v RecordType.a (ip4 1, ip6 1) ≡ ok d)
    × (filter shared_env "one" "www.example.com." RecordType.a
          (v4 (ip4 5))
          (ip4 1, ip6 1)
          ("ads" ∷ [])
          true
          (record { header = toy_header; world = w' })
        ≡ (
          ok (one_record "www.example.com." d),
          record {
            header = toy_header;
            world =
                (write_stats_match shared_env "one"
                  (v4 (ip4 5))
                  (rule_key f (suffix (labels "www.example.com.") i))
                  w').1;
          },
        ))
add-filter_example =
    add-filter shared_env shared_connection shared_hashes
      (record { a_text = refl; aaaa_text = refl }) toy_ip-laws toy_ip-ReadsBack (ip4 1, ip6 1)
      RecordType.a (inl refl) "ads" "me" "example.com" (some "A") none ("A" ∷ "1" ∷ [])
      add_args_test no_rules start (record { hget = λ key field. refl; enabled = λ key. refl })
      "one" "www.example.com." (v4 (ip4 5)) ("ads" ∷ []) true toy_header com_short mem-cons_self 2
      (rw com_labels (omega arith, omega arith)) com_suffix "1" refl
      (λ f i v m w act. absurd (none_active v act)) shared_stats
  where
    none_active : (v : String) → ◌≡◌ {A = Option String} none (some v) → ⊥
    none_active v h = cc

-- One rule, which is enabled.
abbrev one_rule : Store
one_rule = record start {
  hashes =
      (
        "DBL;R;ads;example.com",
        λ field.
            if str_eq field "A"
            then some "1"
            else if str_eq field "enabled"
            then some "1"
            else none,
      )
      ∷ [];
}

abbrev rules_of : Store → Rules
rules_of w = record {
  field_of = λ key field. fields w.hashes key field;
  is_enabled = λ key. is_one (fields w.hashes key "enabled");
}

one_rule_only :
    (key : String)
    → (active (rules_of one_rule) "A" key ≡ none)
      ⊎ (contains ("DBL;R;ads;example.com" ∷ []) key ≡ true)
one_rule_only key = elim (Bool-cases (str_eq key "DBL;R;ads;example.com")) [
  | inl e ↦ inr (rw ((eq_iff key "DBL;R;ads;example.com").0 e) refl)
  | inr e ↦ inl (rw (active, e) refl)
]

disable-filter_example :
    (w' : Store) × (disable shared_connection "ads" "example.*" one_rule ≡ (done success, w'))
    × (filter shared_env "one" "www.example.com." RecordType.a
          (v4 (ip4 5))
          (ip4 1, ip6 1)
          ("ads" ∷ [])
          true
          (record { header = toy_header; world = w' })
        ≡ filter_resolution shared_env "one" "www.example.com." RecordType.a
            (ip4 1, ip6 1)
            true
            (record { header = toy_header; world = w' }))
disable-filter_example =
    disable-filter shared_env shared_connection shared_flags "ads" "example.*"
      ("DBL;R;ads;example.com" ∷ []) (rules_of one_rule) one_rule one_rule refl
      (record { hget = λ key field. refl; enabled = λ key. refl }) "one" "www.example.com."
      RecordType.a (v4 (ip4 5)) (ip4 1, ip6 1) ("ads" ∷ []) true toy_header com_short refl
      (λ f k mem within. one_rule_only (rule_key f (suffix (labels "www.example.com.") k)))
