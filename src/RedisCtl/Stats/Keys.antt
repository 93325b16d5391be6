-- ===== src/RedisCtl/Stats/Keys.antt =====
-- The keys of the statistics, as the daemon writes them and as the tool looks for them.
use text.Mathlib.TextLemmas.{cons-append}
use Prim.Native.Char.{Char, code}
use dnsliar_rs.Base.{
  Bool, true, ◌&&◌, not, ◌==◌, String, ◌≡◌, ◌≢◌, refl, Option, some, List, get_elem?, All,
  All-weaken, sym, ap, ◌∙◌,
}
use dnsliar_rs.Base.Text.{split, ◌<>◌}
use dnsliar_rs.Exec.{value}
use dnsliar_rs.RedisMod.{stats_key}
use dnsliar_rs.RedisCtl.{Connection}
use dnsliar_rs.RedisCtl.Stats.{stats_pattern}

second-pattern : (tail : String) → get_elem? (split b';' ("DBL;R;stats;" <> tail)) 1 ≡ some "R"
unfolding split
second-pattern tail =
    rw (cons-append, cons-append, cons-append, cons-append, cons-append, cons-append) refl

second-stats_key :
    (daemon_id ip : String) → get_elem? (split b';' (stats_key daemon_id ip)) 1 ≡ some "stats"
unfolding split
second-stats_key daemon_id ip =
    rw
      (
        cons-append, cons-append, cons-append, cons-append, cons-append, cons-append, cons-append,
        cons-append, cons-append, cons-append,
      )
      refl

-- A character that stands for itself in a pattern of SCAN.
abbrev is_plain : Char → Bool
is_plain c =
    not (code c == b'*')
    && (not (code c == b'?') && (not (code c == b'[') && not (code c == b'\\')))

abbrev all_plain : String → Bool
all_plain String.[] = true
all_plain (String.◌∷◌ c s) = is_plain c && all_plain s

module _ {World Fault : Type 0} (connection : Connection World Fault) where
  -- SCAN with a pattern: each key that it replies begins with the characters of the pattern up to
  -- the first special one.
  pub record Matches : Type 0 where
    pub begins :
        (prefix rest : String) (w : World) (keys : List String)
        → all_plain prefix ≡ true
        → (connection.scan_match (prefix <> rest) w).0 ≡ value keys
        → All (λ key. (tail : String) × (key ≡ prefix <> tail)) keys

  -- A key that begins like the pattern of the statistics is no key of the statistics.
  begins-misses : (key tail id ip : String) → key ≡ "DBL;R;stats;" <> tail → key ≢ stats_key id ip
  begins-misses key tail id ip e p = different (
      sym (second-pattern tail)
      ∙ (ap (λ k. get_elem? (split b';' k) 1) (sym e ∙ p) ∙ second-stats_key id ip))
    where
      different : ◌≡◌ {A = Option String} (some "R") (some "stats") → ⊥
      different q = cc

  -- SCAN replies only keys that begin with its pattern, up to the first special character of it.
  -- Then no key that it replies to the pattern with which the tool looks for statistics, whatever
  -- the id and the pattern of clients are, is a key under which the daemon writes the statistics of
  -- a client.
  pub stats_pattern-misses :
      Matches
      → (daemon_id pattern : String) (w : World) (keys : List String)
      → (connection.scan_match (stats_pattern daemon_id pattern) w).0 ≡ value keys
      → All (λ key. (id ip : String) → key ≢ stats_key id ip) keys
  unfolding stats_pattern
  stats_pattern-misses matches daemon_id pattern w keys e =
      All-weaken _ _ (λ key begun id ip. begins-misses key begun.0 id ip begun.1) keys
        (matches.begins "DBL;R;stats;" (daemon_id <> (";" <> pattern)) w keys refl e)
