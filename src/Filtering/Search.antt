-- ===== src/Filtering/Search.antt =====
-- The search for the first active rule: what it passes, and what it finds.
use mathlib.Core.List.{mem-cons_self, Mem, not-mem-nil, mem-cons}
use mathlib.Core.Logic.Or
use mathlib.Core.HLevel.{⊥_prop}
use dnsliar_rs.Base.{
  ap₂, sym, ap, ◌∙◌, ◌⊎◌, ℕ, String, ◌≡◌, refl, Option, none, some, List, [], ◌∷◌, map, length, All,
  Option-cases, inl, inr,
}
use dnsliar_rs.Filtering.{rule_key}
use dnsliar_rs.Filtering.Order.{Within}
use dnsliar_rs.Filtering.Rules.{
  find_active-append, or_else, tagged, Rules, suffix, candidates, active, find_active,
}

found_none :
    (x : String) (o : Option String) (p : Option (String × String))
    → or_else (tagged x o) p ≡ none
    → (o ≡ none) × (p ≡ none)
found_none x none p e = (refl, e)
found_none x (some v) p e = cc

found_some :
    (x : String) (o : Option String) (p : Option (String × String)) (rule rule_val : String)
    → or_else (tagged x o) p ≡ some (rule, rule_val)
    → ((x ≡ rule) × (o ≡ some rule_val)) ⊎ (p ≡ some (rule, rule_val))
found_some x none p rule v e = inr e
found_some x (some w) p rule v e = inl (cc, cc)

module _ (rules : Rules) (type : String) where
  -- A search that finds nothing has passed no active rule.
  pub find_active-inactive :
      (xs : List String) (rule rule_val : String)
      → find_active rules type xs ≡ none
      → active rules type rule ≡ some rule_val
      → ¬ Mem rule xs
  find_active-inactive [] rule v e h = not-mem-nil
  find_active-inactive (x ∷ xs) rule v e h =
      let (here, later) = found_none x (active rules type x) (find_active rules type xs) e in
      λ m.
        Or.elim ⊥_prop (mem-cons.0 m) (λ p. some-ne-none (sym h ∙ ap (active rules type) p ∙ here))
          (find_active-inactive xs rule v later h)
    where
      some-ne-none : {w : String} → some w ≡ none → ⊥
      some-ne-none q = cc

  -- With no active rule among the suffixes, the search finds nothing.
  filters_quiet :
      (domain : String) (filters : List String)
      → ((filter : String) → Mem filter filters → active rules type (rule_key filter domain) ≡ none)
      → find_active rules type (map (λ filter. rule_key filter domain) filters) ≡ none
  filters_quiet domain [] h = refl
  filters_quiet domain (f ∷ fs) h =
      rw (h f mem-cons_self) (filters_quiet domain fs (λ g m. h g (mem-cons.1 (Or.inr m))))

  pub candidates_quiet :
      (names filters : List String) (indices : List ℕ)
      → ((filter : String) (k : ℕ)
          → Mem filter filters
          → Within 1 (length names) k
          → active rules type (rule_key filter (suffix names k)) ≡ none)
      → All (Within 1 (length names)) indices
      → find_active rules type (candidates names filters indices) ≡ none
  candidates_quiet names filters [] h w = refl
  candidates_quiet names filters (i ∷ is) h w =
      find_active-append rules type (map (λ filter. rule_key filter (suffix names i)) filters)
        (candidates names filters is)
      ∙ ap₂ or_else (filters_quiet (suffix names i) filters (λ f m. h f i m w.0))
          (candidates_quiet names filters is h w.1)

  -- What is found is active.
  pub find_active-active :
      (xs : List String) (rule rule_val : String)
      → find_active rules type xs ≡ some (rule, rule_val)
      → active rules type rule ≡ some rule_val
  find_active-active [] rule v e = cc
  find_active-active (x ∷ xs) rule v e =
      elim (found_some x (active rules type x) (find_active rules type xs) rule v e) [
        | inl (p, q) ↦ ap (active rules type) (sym p) ∙ q
        | inr q ↦ find_active-active xs rule v q
      ]

  -- What is found among the filters of one suffix is the key of one of them.
  filters_mem :
      (domain : String) (filters : List String) (rule rule_val : String)
      → find_active rules type (map (λ filter. rule_key filter domain) filters)
        ≡ some (rule, rule_val)
      → (filter : String) × Mem filter filters × (rule ≡ rule_key filter domain)
  filters_mem domain [] rule v e = cc
  filters_mem domain (f ∷ fs) rule v e =
      elim (found_some (rule_key f domain) (active rules type (rule_key f domain))
        (find_active rules type (map (λ filter. rule_key filter domain) fs)) rule v e) [
          | inl (p, q) ↦ (f, mem-cons_self, sym p)
          | inr q ↦ let (g, m, p) = filters_mem domain fs rule v q in (g, mem-cons.1 (Or.inr m), p)
        ]

  -- What is found among the candidates is the key of a suffix in a filter.
  pub candidates_from :
      (names filters : List String) (indices : List ℕ) (rule rule_val : String)
      → All (Within 1 (length names)) indices
      → find_active rules type (candidates names filters indices) ≡ some (rule, rule_val)
      → (filter : String) × (k : ℕ) × Mem filter filters
        × Within 1 (length names) k
        × (rule ≡ rule_key filter (suffix names k))
  candidates_from names filters [] rule v w e = cc
  candidates_from names filters (i ∷ is) rule v w e =
      let here = map (λ filter. rule_key filter (suffix names i)) filters in
      let split = sym (find_active-append rules type here (candidates names filters is)) ∙ e in
      elim (Option-cases (find_active rules type here)) [
        | inl n ↦ candidates_from names filters is rule v w.1 (rw n at split)
        | inr ((rule', v'), p) ↦
            let (f, m, q) = filters_mem (suffix names i) filters rule v (p ∙ (rw p at split)) in
            (f, i, m, w.0, q)
      ]
