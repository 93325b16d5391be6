-- ===== src/RedisCtl/Rules/Switch.antt =====
-- What `enable` and `disable` report.
use dnsliar_rs.Base.{All, All-weaken, Bool, true, ℕ, ◌+◌, String, ◌≡◌, refl, List, [], ◌∷◌, arith}
use dnsliar_rs.Base.Text.{◌<>◌}
use dnsliar_rs.Exec.{value}
use dnsliar_rs.Filtering.{rule_key}
use dnsliar_rs.RedisCtl.{done, success, Connection, ◌>>=◌}
use dnsliar_rs.RedisCtl.Rules.{set_enabled, disable, enable}

module _ {World Fault : Type 0} (connection : Connection World Fault) where
  -- The world after the field was set for each key.
  abbrev all_set : String → List String → World → World
  all_set flag [] w = w
  all_set flag (key ∷ keys) w = all_set flag keys (connection.hset key "enabled" flag w).1

  -- Redis says how many fields an HSET made: none, when the field is there. No field vanishes.
  pub record Flags : Type 0 where
    -- the field "enabled" of the hash with the key is there
    pub has : World → String → Bool
    pub hset_none :
        (key flag : String) (w : World)
        → has w key ≡ true
        → (connection.hset key "enabled" flag w).0 ≡ value 0
    pub hset_has :
        (key flag other : String) (w : World)
        → has w other ≡ true
        → has (connection.hset key "enabled" flag w).1 other ≡ true

  module _ (flags : Flags) where
    set_enabled_lem :
        (flag : String) (keys : List String) (cnt : ℕ) (w : World)
        → All (λ key. flags.has w key ≡ true) keys
        → set_enabled connection flag keys cnt w ≡ (done cnt, all_set flag keys w)
    unfolding set_enabled
    set_enabled_lem flag [] cnt w h = refl
    set_enabled_lem flag (key ∷ keys) cnt w h =
        let e : cnt + 0 ≡ cnt = omega arith in
        rw (flags.hset_none key flag w h.0, e)
          (set_enabled_lem flag keys cnt _
            (All-weaken _ _ (λ k there. flags.hset_has key flag k w there) keys h.1))

  -- When one rule or more matches, and each rule that matches has the field "enabled", then
  -- `disable` and `enable` set the field for each rule that matches, return success, and report
  -- that 0 rules were changed. HSET replies the number of fields that are new, and takes none away.
  pub disable-reports-zero :
      (flags : Flags) (filter pattern : String) (key : String) (keys : List String) (w w' : World)
      → connection.scan_match (rule_key filter pattern) w ≡ (value (key ∷ keys), w')
      → All (λ k. flags.has w' k ≡ true) (key ∷ keys)
      → (disable connection filter pattern w ≡ (
        done success,
        connection.println
            (connection.show_usize 0 <> " rule(s) were disabled")
            (all_set "0" (key ∷ keys) w'),
      ))
        × (enable connection filter pattern w ≡ (
          done success,
          connection.println
              (connection.show_usize 0 <> " rule(s) were enabled")
              (all_set "1" (key ∷ keys) w'),
        ))
  unfolding disable enable ◌>>=◌
  disable-reports-zero flags filter pattern key keys w w' e h = (
    rw (e, set_enabled_lem flags "0" (key ∷ keys) 0 w' h) refl,
    rw (e, set_enabled_lem flags "1" (key ∷ keys) 0 w' h) refl,
  )
