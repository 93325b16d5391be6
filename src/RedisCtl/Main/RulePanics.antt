-- ===== src/RedisCtl/Main/RulePanics.antt =====
-- Panics in the functions on rules.
use dnsliar_rs.Base.{
  ℕ, ◌≤◌, String, ◌≡◌, refl, Option, none, some, List, [], ◌∷◌, All, get_elem?, length, arith,
  is_empty, if◌then◌else◌,
}
use dnsliar_rs.Base.Text.{split, ◌<>◌}
use dnsliar_rs.Exec.{Reply, value, fault}
use dnsliar_rs.Net.{IpText}
use dnsliar_rs.Filtering.{rule_key}
use dnsliar_rs.RedisCtl.{done, success, return, ask, ended, ◌>>◌, Connection, print}
use dnsliar_rs.RedisCtl.NoPanic.{
  IsEnded, NoPanic, NoPanic-end, NoPanic-ask, NoPanic-if, NoPanic-bind, NoPanic-bind_of,
  NoPanic-print, NoPanic-get_datetime, no_panic,
}
use dnsliar_rs.RedisCtl.Rules.{
  rule_fields, Parsed, parsed, rejected, type_args, set_enabled, show_rules, or_panic, add_with,
  announce, delete_with, switch, add, delete, enable, disable, search as search_rules,
}
use dnsliar_rs.RedisCtl.Stats
use dnsliar_rs.RedisCtl.Stats.{stats_pattern}

-- A key with a fourth part, as each key has that matches a pattern with three semicolons.
abbrev pub HasFourth : String → Type 0
HasFourth key = 4 ≤ length (split b';' key)

module _ {World Fault : Type 0} (connection : Connection World Fault) where
  -- What SCAN returns matches the pattern, which has three semicolons.
  pub record ScanLaws : Type 0 where
    pub rules_match :
        (filter pattern : String) (w : World) (keys : List String)
        → (connection.scan_match (rule_key filter pattern) w).0 ≡ value keys
        → All HasFourth keys
    pub stats_match :
        (daemon_id pattern : String) (w : World) (keys : List String)
        → (connection.scan_match (stats_pattern daemon_id pattern) w).0 ≡ value keys
        → All HasFourth keys

  -- The list that was asked for is the one that was replied.
  asked : {A : Type 0} (reply : Reply Fault A) {a : A} → ended reply ≡ done a → reply ≡ value a
  asked (value b) h = cc
  asked (fault f) h = cc

  fourth : (xs : List String) → 4 ≤ length xs → IsEnded (or_panic connection (get_elem? xs 3))
  fourth (a ∷ b ∷ c ∷ d ∷ xs) h = tt
  fourth [] h = absurd (omega arith)
  fourth (a ∷ []) h = absurd (omega arith)
  fourth (a ∷ b ∷ []) h = absurd (omega arith)
  fourth (a ∷ b ∷ c ∷ []) h = absurd (omega arith)

  show_rules-NoPanic :
      (keys : List String) → All HasFourth keys → NoPanic (show_rules connection keys)
  unfolding show_rules
  show_rules-NoPanic [] h = search no_panic
  show_rules-NoPanic (key ∷ keys) h = NoPanic-bind _ _ (NoPanic-ask _) (λ values.
      NoPanic-bind _ _ (NoPanic-end _ (fourth (split b';' key) h.0)) (λ domain.
        NoPanic-bind _ _ (NoPanic-print connection _) (λ u. show_rules-NoPanic keys h.1)))

  set_enabled-NoPanic :
      (flag : String) (keys : List String) (cnt : ℕ)
      → NoPanic (set_enabled connection flag keys cnt)
  unfolding set_enabled
  set_enabled-NoPanic flag [] cnt = record { at = λ w. tt }
  set_enabled-NoPanic flag (key ∷ keys) cnt = record {
    at = λ w. (set_enabled-NoPanic flag keys _).at _;
  }

  switch-NoPanic :
      (flag report pattern : String) (keys : List String)
      → NoPanic (switch connection flag report pattern keys)
  switch-NoPanic flag report pattern keys = search (no_panic, set_enabled-NoPanic) depth 20

  add_with-NoPanic :
      (key : String) (fields : List String) (p : Parsed)
      → NoPanic (add_with connection key fields p)
  add_with-NoPanic key fields (rejected message) = search no_panic depth 20
  add_with-NoPanic key fields (parsed types) = search no_panic depth 20

  announce-NoPanic : (ip1 ip2 : Option String) → NoPanic (announce connection ip1 ip2)
  announce-NoPanic none none = search no_panic
  announce-NoPanic none (some ip) = search no_panic
  announce-NoPanic (some ip) ip2 = search no_panic

  delete_with-NoPanic :
      (key : String) (q_type : Option String) → NoPanic (delete_with connection key q_type)
  delete_with-NoPanic key none = search no_panic depth 20
  delete_with-NoPanic key (some t) = search no_panic depth 20

  pub disable-NoPanic : (filter pattern : String) → NoPanic (disable connection filter pattern)
  unfolding disable
  disable-NoPanic filter pattern = search (no_panic, switch-NoPanic)

  pub enable-NoPanic : (filter pattern : String) → NoPanic (enable connection filter pattern)
  unfolding enable
  enable-NoPanic filter pattern = search (no_panic, switch-NoPanic)

  pub delete-NoPanic :
      (filter domain : String) (q_type : Option String)
      → NoPanic (delete connection filter domain q_type)
  unfolding delete
  delete-NoPanic filter domain q_type = delete_with-NoPanic _ q_type

  type_args-IsEnded :
      (text : IpText) (ip1 ip2 : Option String)
      → (ip1 ≡ none → ip2 ≡ none)
      → IsEnded (type_args text {Fault = Fault} ip1 ip2)
  unfolding type_args
  type_args-IsEnded text none none h = tt
  type_args-IsEnded text (some ip1) none h = tt
  type_args-IsEnded text (some ip1) (some ip2) h = tt
  type_args-IsEnded text none (some ip2) h = absurd (some-ne-none (h refl))
    where
      some-ne-none : {A : Type 0} {a : A} → some a ≡ none → ⊥
      some-ne-none p = cc

  pub add-NoPanic :
      (text : IpText) (filter src domain : String) (ip1 ip2 : Option String)
      → (ip1 ≡ none → ip2 ≡ none)
      → NoPanic (add connection text filter src domain ip1 ip2)
  unfolding add
  add-NoPanic text filter src domain ip1 ip2 h =
      NoPanic-bind _ _ (NoPanic-get_datetime connection) (λ date.
        NoPanic-bind _ _ (announce-NoPanic ip1 ip2) (λ u.
          NoPanic-bind _ _ (NoPanic-end _ (type_args-IsEnded text ip1 ip2 h)) (λ types.
            add_with-NoPanic (rule_key filter domain)
              (rule_fields (date.0 <> (date.1 <> date.2)) src) types)))

  module _ (laws : ScanLaws) where
    -- The loop over keys that SCAN replied.
    scanned-NoPanic :
        (pattern : String) (keys : List String)
        → All HasFourth keys
        → NoPanic (
            if is_empty keys
            then print connection pattern >> return success
            else show_rules connection keys)
    scanned-NoPanic pattern keys h =
        NoPanic-if (is_empty keys) (print connection pattern >> return success)
          (show_rules connection keys) (search no_panic) (show_rules-NoPanic keys h)

    pub search-NoPanic :
        (filter pattern : String) → NoPanic (search_rules connection filter pattern)
    unfolding search_rules ask
    search-NoPanic filter pattern =
        NoPanic-bind_of _ _ (NoPanic-ask _)
          (λ w keys e. scanned-NoPanic _ keys (laws.rules_match filter pattern w keys (asked _ e)))

    pub stats_show-NoPanic :
        (daemon_id pattern : String) → NoPanic (Stats.show connection daemon_id pattern)
    unfolding Stats.show ask
    stats_show-NoPanic daemon_id pattern =
        NoPanic-bind_of _ _ (NoPanic-ask _) (λ w keys e.
          scanned-NoPanic _ keys (laws.stats_match daemon_id pattern w keys (asked _ e)))

  pub stats_clear-NoPanic :
      (daemon_id pattern : String) → NoPanic (Stats.clear connection daemon_id pattern)
  unfolding Stats.clear
  stats_clear-NoPanic daemon_id pattern = search no_panic depth 20
