-- ===== src/Tests/Lying.antt =====
-- A whole request for a name that has a rule.
use mathlib.Core.List.{mem-cons_self, Mem}
use dnsliar_rs.Base.{ℕ, String, ◌≡◌, refl, some, length, inl}
use dnsliar_rs.Net.{v4}
use dnsliar_rs.Exec.{ok, value, ◌>>=◌}
use dnsliar_rs.Dns.{RecordType, RData, OpCode, MessageType, Request}
use dnsliar_rs.RedisMod.{write_stats_request, write_stats_match}
use dnsliar_rs.Filtering.{labels, lie, rule_key}
use dnsliar_rs.Filtering.Order.{Within}
use dnsliar_rs.Filtering.Rules.{Reads, suffix, active}
use dnsliar_rs.Handler.{handle_request}
use dnsliar_rs.Handler.Lies.{lie_message, handle_request-lies}
use dnsliar_rs.Tests.Toy.{toy_types, toy_env, toy_data, toy_config, toy_request, ip4}
use dnsliar_rs.Tests.Deciding.{toy_rules, toy_lie, com_short, com_active, com_labels-Within}

abbrev asks : Request toy_types
asks = toy_request OpCode.query MessageType.query "www.example.com." RecordType.a

counted : write_stats_request toy_env "one" (v4 (ip4 1)) 0 ≡ (ok tt, 2)
unfolding write_stats_request ◌>>=◌
counted = refl

later-Reads : Reads toy_env toy_rules 2
later-Reads = record { hget = λ key field. refl; enabled = λ key. refl }

matched_later : (rule : String) → (write_stats_match toy_env "one" (v4 (ip4 1)) rule 2).0 ≡ ok tt
unfolding write_stats_match ◌>>=◌
matched_later rule = refl

handle_request-lies_example :
    (f : String) × (i : ℕ) × (v : String) × (rdata : RData toy_types) × (info : ℕ) × (w' : ℕ) × Mem
      f toy_data.filters
    × Within 1 (length (labels "www.example.com.")) i
    × (active toy_rules "A" (rule_key f (suffix (labels "www.example.com.") i)) ≡ some v)
    × (lie toy_env v RecordType.a toy_data.sinks ≡ ok rdata)
    × (toy_env.hickory.send_response
          (lie_message toy_env "one" asks "www.example.com." rdata)
          (write_stats_match toy_env "one"
            (v4 (ip4 1))
            (rule_key f (suffix (labels "www.example.com.") i))
            2).1
        ≡ (value info, w'))
    × (handle_request toy_env "one" toy_config asks 0 ≡ (ok info, w'))
handle_request-lies_example =
    handle_request-lies toy_env "one" toy_config toy_data toy_rules asks "www.example.com." 0 2 refl
      refl refl refl refl (inl refl) com_short counted later-Reads "ads" 2 "1" mem-cons_self
      com_labels-Within com_active
      (λ f i v m w act. toy_lie (rule_key f (suffix (labels "www.example.com.") i)) v act)
      matched_later (λ message w'. (_, _, refl))
