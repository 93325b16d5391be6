-- ===== src/RedisCtl/Feed/Clear.antt =====
-- The result of the loop over SCAN, and the rules that were found.
use dnsliar_rs.Base.{
  ℕ, zero, suc, String, ◌≡◌, refl, sym, ap, ◌∙◌, true, false, Option, none, some, List, [], ◌∷◌,
  ◌++◌, Bool-cases, ◌⊎◌, inl, inr, arith, ◌==◌, All,
}
use dnsliar_rs.Base.Text.{str_eq, eq_iff}
use dnsliar_rs.Exec.{Reply, value, fault}
use dnsliar_rs.Filtering.{rule_key}
use dnsliar_rs.RedisCtl.{Ended, done, failed, ◌>>=◌, Connection}
use dnsliar_rs.RedisCtl.Feed.{Filter, Source, Outside, contains, absorb}
use dnsliar_rs.RedisCtl.Feed.Auto.{scan_loop}
use dnsliar_rs.RedisCtl.Feed.Scan.{
  Scans, last, next, fresh, fresh_filters, fresh_sources, absorb_lem, fresh_sources-append,
}

module _ (key : String) where
  -- None of the rules has this key.
  abbrev pub IsClear : String → List String → Type 0
  IsClear filter = All (λ domain. str_eq (rule_key filter domain) key ≡ false)

  abbrev pub AreClear : List Filter → Type 0
  AreClear = All (λ filter. IsClear filter.name filter.domains)

  abbrev pub AllClear : List Source → Type 0
  AllClear = All (λ src. AreClear src.filters)

  module _ (keys : List String) (there : contains keys key ≡ true) where
    missing-other : (k : String) → contains keys k ≡ false → str_eq k key ≡ false
    missing-other k absent = elim (Bool-cases (str_eq k key)) [
      | inl e ↦
          absurd
            (true-ne-false (sym there ∙ ap (contains keys) (sym ((eq_iff k key).0 e)) ∙ absent))
      | inr e ↦ e
    ]
      where
        true-ne-false : true ≡ false → ⊥
        true-ne-false h = cc

    fresh-IsClear :
        (filter : String) (domains : List String) → IsClear filter (fresh keys filter domains)
    fresh-IsClear filter [] = tt
    fresh-IsClear filter (d ∷ ds) = elim (Bool-cases (contains keys (rule_key filter d))) [
      | inl e ↦ rw e (fresh-IsClear filter ds)
      | inr e ↦ rw e (missing-other (rule_key filter d) e, fresh-IsClear filter ds)
    ]

    fresh_filters-AreClear : (filters : List Filter) → AreClear (fresh_filters keys filters)
    fresh_filters-AreClear [] = tt
    fresh_filters-AreClear (f ∷ fs) = (fresh-IsClear f.name f.domains, fresh_filters-AreClear fs)

    pub fresh_sources-AllClear : (srcs : List Source) → AllClear (fresh_sources keys srcs)
    fresh_sources-AllClear [] = tt
    fresh_sources-AllClear (s ∷ ss) = (fresh_filters-AreClear s.filters, fresh_sources-AllClear ss)

module _ {World Fault : Type 0} (connection : Connection World Fault)
    (outside : Outside World Fault) where
  replied :
      {A : Type 0} (p : Reply Fault A × World)
      → ((a : A) × (w' : World) × (p ≡ (value a, w')))
        ⊎ ((f : Fault) × (w' : World) × (p ≡ (fault f, w')))
  replied (value a, w') = inl (a, w', refl)
  replied (fault f, w') = inr (f, w', refl)

  -- If the loop returns, SCAN has ended, and what it returns lacks the rules of all the replies.
  pub scan_loop-Scans :
      (fuel cursor found : ℕ) (srcs : List Source) (w : World) (found' : ℕ) (srcs' : List Source)
      → (scan_loop connection outside fuel cursor (found, srcs) w).0 ≡ done (some (found', srcs'))
      → (n : ℕ) × (keys : List String) × (w' : World) × Scans connection cursor w n keys w'
        × (srcs' ≡ fresh_sources keys srcs)
  unfolding scan_loop ◌>>=◌
  scan_loop-Scans zero cursor found srcs w found' srcs' e = absurd (none-ne-some e)
    where
      none-ne-some :
          ◌≡◌ {A = Ended Fault (Option (ℕ × List Source))} (done none) (done (some (found', srcs')))
          → ⊥
      none-ne-some h = cc
  scan_loop-Scans (suc fuel) cursor found srcs w found' srcs' e =
      elim (replied (connection.scan cursor w)) [
        | inr (f, w', s) ↦ absurd (failed-ne-done (rw s at e))
        | inl ((cursor', keys), w1, s) ↦ elim (Bool-cases (cursor' == 0)) [
          | inl z ↦
              let zero_cursor : cursor' ≡ 0 = ground arith in
              (
                1,
                keys,
                w1,
                last cursor w w1 keys (s ∙ ap (λ c. (value (c, keys), w1)) zero_cursor),
                sym (second (rw (s, z) at e)) ∙ (absorb_lem keys found srcs).0,
              )
          | inr z ↦
              let (n, rest, w', scans, same) =
                scan_loop-Scans fuel cursor' (absorb keys (found, srcs)).0
                  (absorb keys (found, srcs)).1 w1 found' srcs' (rw (s, z) at e) in
              (
                suc n,
                keys ++ rest,
                w',
                next cursor cursor' w w1 w' keys rest n z s scans,
                same
                    ∙ ap (fresh_sources rest) (absorb_lem keys found srcs).0
                    ∙ fresh_sources-append keys rest srcs,
              )
        ]
      ]
    where
      failed-ne-done :
          {f : Fault}
          → ◌≡◌ {A = Ended Fault (Option (ℕ × List Source))}
              (failed f)
              (done (some (found', srcs')))
          → ⊥
      failed-ne-done h = cc

      second :
          {p : ℕ × List Source}
          → ◌≡◌ {A = Ended Fault (Option (ℕ × List Source))}
              (done (some p))
              (done (some (found', srcs')))
          → p.1 ≡ srcs'
      second {p = p} h =
          let same : p ≡ (found', srcs') = cc in ap (λ (q : ℕ × List Source). q.1) same
