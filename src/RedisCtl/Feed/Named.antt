-- ===== src/RedisCtl/Feed/Named.antt =====
-- The rules that lists of domains name, and what HSET and SCAN say of a rule.
use dnsliar_rs.Base.{
  ℕ, String, ◌≡◌, refl, sym, ap, ◌∙◌, Bool, true, false, ◌||◌, Option, none, some, List, [], ◌∷◌,
  if◌then◌else◌, Bool-cases, inl, inr,
}
use dnsliar_rs.Base.Text.{str_eq, eq_iff}
use dnsliar_rs.Filtering.{rule_key}
use dnsliar_rs.Filtering.Rules.{or_else}
use dnsliar_rs.RedisCtl.{Connection}
use dnsliar_rs.RedisCtl.Feed.{Filter, Source, Outside, contains}
use dnsliar_rs.RedisCtl.Feed.Scan.{Scans, fresh, fresh_filters, fresh_sources}
use dnsliar_rs.RedisCtl.Feed.Spares.{Hashes}

abbrev pub last_of : String → List (String × String) → Option String
last_of field [] = none
last_of field ((key, val) ∷ rest) =
    or_else (last_of field rest) (if str_eq key field then some val else none)

-- Some field of a hash is there.
abbrev pub IsThere :
    {World : Type 0} → (World → String → String → Option String) → World → String → Type 0
IsThere hash w key = (field : String) × (val : String) × (hash w key field ≡ some val)

-- HSET of several fields adds them to the hash of its key, or replaces them there; and a key that SCAN
-- replies was there when the iteration began.
pub record Writes {World Fault : Type 0} (connection : Connection World Fault)
    (outside : Outside World Fault) (hashes : Hashes connection outside) : Type 0 where
  pub hset_multiple_sets :
      (key : String) (pairs : List (String × String)) (field : String) (w : World)
      → hashes.hash (connection.hset_multiple key pairs w).1 key field
        ≡ or_else (last_of field pairs) (hashes.hash w key field)
  pub scan_sound :
      (n : ℕ) (keys : List String) (w w' : World)
      → Scans connection 0 w n keys w'
      → (key : String) → contains keys key ≡ true
      → IsThere hashes.hash w key

-- Some domain has the rule with this key.
module _ (key : String) where
  abbrev pub names_key : String → List String → Bool
  names_key filter [] = false
  names_key filter (domain ∷ domains) =
      str_eq (rule_key filter domain) key || names_key filter domains

  abbrev pub filters_name : List Filter → Bool
  filters_name [] = false
  filters_name (filter ∷ filters) = names_key filter.name filter.domains || filters_name filters

  abbrev pub sources_name : List Source → Bool
  sources_name [] = false
  sources_name (src ∷ srcs) = filters_name src.filters || sources_name srcs

  module _ (keys : List String) (absent : contains keys key ≡ false) where
    fresh-names_key :
        (filter : String) (domains : List String)
        → names_key filter (fresh keys filter domains) ≡ names_key filter domains
    fresh-names_key filter [] = refl
    fresh-names_key filter (d ∷ ds) = elim (Bool-cases (contains keys (rule_key filter d))) [
      | inl e ↦ elim (Bool-cases (str_eq (rule_key filter d) key)) [
        | inl same ↦ absurd (
            true-ne-false
              (sym e ∙ ap (contains keys) ((eq_iff (rule_key filter d) key).0 same) ∙ absent))
        | inr other ↦ rw (e, other) (fresh-names_key filter ds)
      ]
      | inr e ↦
          rw e (ap (λ (b : Bool). str_eq (rule_key filter d) key || b) (fresh-names_key filter ds))
    ]
      where
        true-ne-false : true ≡ false → ⊥
        true-ne-false h = cc

    fresh-filters_name :
        (filters : List Filter) → filters_name (fresh_filters keys filters) ≡ filters_name filters
    fresh-filters_name [] = refl
    fresh-filters_name (f ∷ fs) = rw (fresh-names_key f.name f.domains, fresh-filters_name fs) refl

    pub fresh-sources_name :
        (srcs : List Source) → sources_name (fresh_sources keys srcs) ≡ sources_name srcs
    fresh-sources_name [] = refl
    fresh-sources_name (s ∷ ss) = rw (fresh-filters_name s.filters, fresh-sources_name ss) refl
