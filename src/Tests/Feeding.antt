-- ===== src/Tests/Feeding.antt =====
-- The feeds of the tool.
use dnsliar_rs.Base.{
  ℕ, ◌+◌, String, ◌≡◌, refl, none, some, List, [], ◌∷◌, if◌then◌else◌, arith, ◌==◌,
}
use dnsliar_rs.Base.Words.{words, lines}
use dnsliar_rs.Exec.{value}
use dnsliar_rs.Config.{filter_map}
use dnsliar_rs.Filtering.{rule_key}
use dnsliar_rs.RedisCtl.{done, Connection, ◌>>=◌}
use dnsliar_rs.RedisCtl.Rules.{rule_fields}
use dnsliar_rs.RedisCtl.Rules.Add.{IsAnswered}
use dnsliar_rs.RedisCtl.Feed.{Source, parse_line, retain_sources}
use dnsliar_rs.RedisCtl.Feed.Auto.{scan_loop, auto}
use dnsliar_rs.RedisCtl.Feed.Single.{feed_args}
use dnsliar_rs.RedisCtl.Feed.Lines.{parse_line-domain}
use dnsliar_rs.RedisCtl.Feed.Scan.{Scans, last, next, fresh_sources, count_sources, scan_loop-fresh}
use dnsliar_rs.RedisCtl.Feed.Fields.{feed_args-IsAnswered}
use dnsliar_rs.RedisCtl.Feed.Kept.{auto-keeps}
use dnsliar_rs.Tests.Toy.{toy_env, toy_data, toy_ip-laws}
use dnsliar_rs.Tests.Editing.{toy_connection, toy_outside, toy_ip-ReadsBack}
use dnsliar_rs.Tests.Log.{Log, log_connection, log_outside, log_hashes}

parse_line-domain_example :
    (parse_line "ads.example.com" ≡ some "ads.example.com")
    × (parse_line "0.0.0.0 ads.example.com" ≡ some "ads.example.com")
    × (parse_line "# a comment" ≡ none)
parse_line-domain_example =
    parse_line-domain "0.0.0.0" "ads.example.com" " a comment"
      (refl, (refl, (refl, (refl, (refl, (refl, refl))))))
      (
        refl,
        (
          refl,
          (
            refl,
            (
              refl,
              (refl, (refl, (refl, (refl, (refl, (refl, (refl, (refl, (refl, (refl, refl)))))))))),
            ),
          ),
        ),
      )
      refl refl

-- Two replies of SCAN, the first with the cursor 5.
abbrev paged : Connection (List String) ℕ
paged = record toy_connection {
  scan = λ cursor w.
      if cursor == 5
      then (value (0, "DBL;R;ads;example.org" ∷ []), w)
      else (value (5, "DBL;R;ads;example.com" ∷ []), w);
}

-- A rule that is disabled.
abbrev disabled_rule : Log
disabled_rule = ("DBL;R;ads;example.com", "enabled", "0") ∷ []

-- The toy lists name "example.com" and "example.org": one rule is new.
auto_test :
    (log_hashes.hash
        (auto log_connection log_outside 1 "path" disabled_rule).1
        "DBL;R;ads;example.com"
        "enabled"
      ≡ some "0")
    × (log_hashes.hash
          (auto log_connection log_outside 1 "path" disabled_rule).1
          "DBL;R;ads;example.org"
          "enabled"
        ≡ some "1")
unfolding auto ◌>>=◌ parse_line words log_hashes rule_key retain_sources filter_map lines
auto_test = (refl, refl)

disabled_test : log_hashes.hash disabled_rule (rule_key "ads" "example.com") "enabled" ≡ some "0"
unfolding log_hashes rule_key
disabled_test = refl

auto-keeps_example :
    log_hashes.hash
      (auto log_connection log_outside 1 "path" disabled_rule).1
      (rule_key "ads" "example.com")
    ≡ log_hashes.hash disabled_rule (rule_key "ads" "example.com")
auto-keeps_example =
    auto-keeps log_connection log_outside log_hashes "ads" "example.com" "enabled" "0" 1 "path"
      disabled_rule disabled_test

feed_args-IsAnswered_example :
    (args : List String) × ((feed_args toy_connection toy_env.ip 1
        ("AAAA" ∷ "x" ∷ "192.0.2.9" ∷ [])
        (rule_fields "20240101" "me")
        []).0
      ≡ done args)
    × IsAnswered toy_env toy_data.sinks args
feed_args-IsAnswered_example =
    feed_args-IsAnswered toy_env toy_data.sinks (record { a_text = refl; aaaa_text = refl })
      toy_ip-laws toy_ip-ReadsBack toy_connection 1 ("AAAA" ∷ "x" ∷ "192.0.2.9" ∷ []) "20240101"
      "me" []

paged-Scans : Scans paged 0 [] 2 ("DBL;R;ads;example.com" ∷ "DBL;R;ads;example.org" ∷ []) []
paged-Scans =
    next 0 5 [] [] [] ("DBL;R;ads;example.com" ∷ []) ("DBL;R;ads;example.org" ∷ []) 1 refl refl
      (last 5 [] [] ("DBL;R;ads;example.org" ∷ []) refl)

-- Three domains, two of them with a rule.
abbrev downloads : List Source
downloads =
    record {
      name = "lists";
      filters =
          record { name = "ads"; domains = "example.com" ∷ "example.net" ∷ "example.org" ∷ [] }
          ∷ [];
    }
    ∷ []

scan_loop-fresh_example :
    (found' : ℕ) × (scan_loop paged toy_outside 2 0 (0, downloads) [] ≡ (
      done (
          some (
            found',
            fresh_sources ("DBL;R;ads;example.com" ∷ "DBL;R;ads;example.org" ∷ []) downloads,
          )),
      [],
    ))
    × (found'
          + count_sources
              (fresh_sources ("DBL;R;ads;example.com" ∷ "DBL;R;ads;example.org" ∷ []) downloads)
        ≡ 0 + count_sources downloads)
scan_loop-fresh_example =
    scan_loop-fresh paged toy_outside 2 0 2 ("DBL;R;ads;example.com" ∷ "DBL;R;ads;example.org" ∷ [])
      [] [] paged-Scans (omega arith) 0 downloads

-- What the toy lists come to.
abbrev fetched : List Source
fetched =
    record {
      name = "lists";
      filters = record { name = "ads"; domains = "example.com" ∷ "example.org" ∷ [] } ∷ [];
    }
    ∷ []
