-- ===== src/RedisCtl/Feed/Scan.antt =====
-- The loop over SCAN: when it ends, and what it keeps.
use dnsliar_rs.Base.{
  ℕ, zero, suc, ◌+◌, ◌≤◌, String, ◌≡◌, refl, sym, ap, ap₂, ◌∙◌, false, ◌||◌, some, List, [], ◌∷◌,
  ◌++◌, map, if◌then◌else◌, Bool-cases, inl, inr, arith, ◌==◌, length,
}
use dnsliar_rs.Exec.{value}
use dnsliar_rs.Filtering.{rule_key}
use dnsliar_rs.RedisCtl.{done, ◌>>=◌, Connection}
use dnsliar_rs.RedisCtl.Feed.{
  Filter, Source, Outside, contains, retain, retain_filters, retain_sources, absorb,
}
use dnsliar_rs.RedisCtl.Feed.Auto.{scan_loop}

-- The sources without the domains under which one of the keys is a rule.
module _ (keys : List String) where
  abbrev pub fresh : String → List String → List String
  fresh filter [] = []
  fresh filter (domain ∷ domains) =
      if contains keys (rule_key filter domain)
      then fresh filter domains
      else domain ∷ fresh filter domains

  abbrev pub fresh_filters : List Filter → List Filter
  fresh_filters =
      map {A = Filter} (λ filter. record filter { domains = fresh filter.name filter.domains })

  abbrev pub fresh_sources : List Source → List Source
  fresh_sources = map {A = Source} (λ src. record src { filters = fresh_filters src.filters })

-- How many domains there are.
abbrev pub count_filters : List Filter → ℕ
count_filters [] = 0
count_filters (filter ∷ filters) = length filter.domains + count_filters filters

abbrev pub count_sources : List Source → ℕ
count_sources [] = 0
count_sources (src ∷ srcs) = count_filters src.filters + count_sources srcs

module _ {World Fault : Type 0} (connection : Connection World Fault) where
  -- SCAN from a cursor: the keys of its replies, up to the reply with the cursor 0, and their number.
  pub data Scans : ℕ → World → ℕ → List String → World → Type 0 where
    last :
        (cursor : ℕ) (w w' : World) (keys : List String)
        → connection.scan cursor w ≡ (value (0, keys), w')
        → Scans cursor w 1 keys w'
    next :
        (cursor cursor' : ℕ) (w w' w'' : World) (keys rest : List String) (n : ℕ)
        → (cursor' == 0) ≡ false
        → connection.scan cursor w ≡ (value (cursor', keys), w')
        → Scans cursor' w' n rest w''
        → Scans cursor w (suc n) (keys ++ rest) w''

  Scans-pos :
      {cursor n : ℕ} {w w' : World} {keys : List String} → Scans cursor w n keys w' → n ≤ 0 → ⊥
  Scans-pos (last cursor w w' keys e) le = omega arith
  Scans-pos (next cursor cursor' w w1 w' keys1 rest n ne e scans) le = omega arith

retain_lem :
    (keys : List String) (filter : String) (domains : List String)
    → ((retain keys filter domains).1 ≡ fresh keys filter domains)
      × ((retain keys filter domains).0 + length (fresh keys filter domains) ≡ length domains)
unfolding retain
retain_lem keys filter [] = (refl, refl)
retain_lem keys filter (d ∷ ds) =
    let (kept, count) = retain_lem keys filter ds in
    elim (Bool-cases (contains keys (rule_key filter d))) [
      | inl b ↦ rw (b, kept) (refl, omega (arith, count))
      | inr b ↦ rw (b, kept) (refl, omega (arith, count))
    ]

retain_filters_lem :
    (keys : List String) (filters : List Filter)
    → ((retain_filters keys filters).1 ≡ fresh_filters keys filters)
      × ((retain_filters keys filters).0 + count_filters (fresh_filters keys filters)
          ≡ count_filters filters)
unfolding retain_filters
retain_filters_lem keys [] = (refl, refl)
retain_filters_lem keys (f ∷ fs) =
    let (kept, count) = retain_lem keys f.name f.domains in
    let (kept', count') = retain_filters_lem keys fs in
    (rw (kept, kept') refl, omega (arith, count, count'))

retain_sources_lem :
    (keys : List String) (srcs : List Source)
    → ((retain_sources keys srcs).1 ≡ fresh_sources keys srcs)
      × ((retain_sources keys srcs).0 + count_sources (fresh_sources keys srcs)
          ≡ count_sources srcs)
unfolding retain_sources
retain_sources_lem keys [] = (refl, refl)
retain_sources_lem keys (s ∷ ss) =
    let (kept, count) = retain_filters_lem keys s.filters in
    let (kept', count') = retain_sources_lem keys ss in
    (rw (kept, kept') refl, omega (arith, count, count'))

-- No key, nothing found.
fresh_nil : (filter : String) (domains : List String) → fresh [] filter domains ≡ domains
fresh_nil filter [] = refl
fresh_nil filter (d ∷ ds) = ap (λ (l : List String). d ∷ l) (fresh_nil filter ds)

fresh_filters_nil : (filters : List Filter) → fresh_filters [] filters ≡ filters
fresh_filters_nil [] = refl
fresh_filters_nil (f ∷ fs) =
    ap₂ (λ (l : List String) (l' : List Filter). record f { domains = l } ∷ l')
      (fresh_nil f.name f.domains) (fresh_filters_nil fs)

fresh_sources_nil : (srcs : List Source) → fresh_sources [] srcs ≡ srcs
fresh_sources_nil [] = refl
fresh_sources_nil (s ∷ ss) =
    ap₂ (λ (l : List Filter) (l' : List Source). record s { filters = l } ∷ l')
      (fresh_filters_nil s.filters) (fresh_sources_nil ss)

-- What one reply leaves, and what it counts.
pub absorb_lem :
    (keys : List String) (found : ℕ) (srcs : List Source)
    → ((absorb keys (found, srcs)).1 ≡ fresh_sources keys srcs)
      × ((absorb keys (found, srcs)).0 + count_sources (fresh_sources keys srcs)
          ≡ found + count_sources srcs)
absorb_lem [] found srcs = (sym (fresh_sources_nil srcs), rw (fresh_sources_nil srcs) refl)
absorb_lem (k ∷ ks) found srcs =
    let (kept, count) = retain_sources_lem (k ∷ ks) srcs in (kept, omega (arith, count))

pub contains-append :
    (ks js : List String) (key : String)
    → contains (ks ++ js) key ≡ (contains ks key || contains js key)
contains-append [] js key = refl
contains-append (k ∷ ks) js key = ground (arith, contains-append ks js key)

fresh-append :
    (ks js : List String) (filter : String) (domains : List String)
    → fresh js filter (fresh ks filter domains) ≡ fresh (ks ++ js) filter domains
fresh-append ks js filter [] = refl
fresh-append ks js filter (d ∷ ds) =
    ground (arith, fresh-append ks js filter ds, contains-append ks js (rule_key filter d))

fresh_filters-append :
    (ks js : List String) (filters : List Filter)
    → fresh_filters js (fresh_filters ks filters) ≡ fresh_filters (ks ++ js) filters
fresh_filters-append ks js [] = refl
fresh_filters-append ks js (f ∷ fs) =
    ap₂ (λ (l : List String) (l' : List Filter). record f { domains = l } ∷ l')
      (fresh-append ks js f.name f.domains) (fresh_filters-append ks js fs)

pub fresh_sources-append :
    (ks js : List String) (srcs : List Source)
    → fresh_sources js (fresh_sources ks srcs) ≡ fresh_sources (ks ++ js) srcs
fresh_sources-append ks js [] = refl
fresh_sources-append ks js (s ∷ ss) =
    ap₂ (λ (l : List Filter) (l' : List Source). record s { filters = l } ∷ l')
      (fresh_filters-append ks js s.filters) (fresh_sources-append ks js ss)

module _ {World Fault : Type 0} (connection : Connection World Fault)
    (outside : Outside World Fault) where
  -- If SCAN ends after `n` replies, and there is fuel for `n` rounds, the loop of `auto` returns. It
  -- keeps, in their order, the domains for which none of the keys of all the replies is the key of the
  -- rule, and the count it returns is the number of those that it dropped added to the count so far.
  pub scan_loop-fresh :
      (fuel cursor n : ℕ) (keys : List String) (w w' : World)
      → Scans connection cursor w n keys w'
      → n ≤ fuel
      → (found : ℕ) (srcs : List Source)
      → (found' : ℕ) × (scan_loop connection outside fuel cursor (found, srcs) w
          ≡ (done (some (found', fresh_sources keys srcs)), w'))
        × (found' + count_sources (fresh_sources keys srcs) ≡ found + count_sources srcs)
  unfolding scan_loop ◌>>=◌
  scan_loop-fresh zero cursor n keys w w' scans le found srcs =
      absurd (Scans-pos connection scans le)
  scan_loop-fresh (suc fuel) _ _ _ _ _ (last cursor w w' keys e) le found srcs =
      let (kept, count) = absorb_lem keys found srcs in
      (
        (absorb keys (found, srcs)).0,
        rw e (ap (λ (l : List Source). (done (some ((absorb keys (found, srcs)).0, l)), w')) kept),
        count,
      )
  scan_loop-fresh (suc fuel) _ _ _ _ _ (next cursor cursor' w w1 w' keys1 rest n' ne e scans) le
        found srcs =
      let (kept, count) = absorb_lem keys1 found srcs in
      let (found', run, count') =
        scan_loop-fresh fuel cursor' n' rest w1 w' scans (omega arith)
          (absorb keys1 (found, srcs)).0 (absorb keys1 (found, srcs)).1 in
      let both : fresh_sources rest (absorb keys1 (found, srcs)).1
          ≡ fresh_sources (keys1 ++ rest) srcs =
        ap (fresh_sources rest) kept ∙ fresh_sources-append keys1 rest srcs in
      (
        found',
        rw (e, ne) (run ∙ ap (λ (l : List Source). (done (some (found', l)), w')) both),
        ap (λ (l : List Source). found' + count_sources l) (sym both)
            ∙ count'
            ∙ ap (λ (l : List Source). (absorb keys1 (found, srcs)).0 + count_sources l) kept
            ∙ count,
      )
