-- ===== src/RedisCtl/Feed/Brings.antt =====
-- What the writes of `auto` do to a rule that is named: they make it, or keep it.
use dnsliar_rs.Base.{
  ℕ, ◌+◌, ◌≤◌, String, ◌≡◌, refl, ap, ◌∙◌, Bool, true, false, ◌||◌, Option, some, List, [], ◌∷◌,
  is_empty, Bool-cases, inl, inr, ◌⊎◌,
}
use dnsliar_rs.Base.Text.{str_eq, eq_iff, ◌<>◌}
use dnsliar_rs.Filtering.{rule_key}
use dnsliar_rs.RedisCtl.{done, success, Tool, return, ◌>>=◌, Connection, print, get_datetime}
use dnsliar_rs.RedisCtl.Feed.{Filter, Source, Outside, contains}
use dnsliar_rs.RedisCtl.Feed.Auto.{
  added, add_domains, add_filters, add_sources, add_new, with_sources,
}
use dnsliar_rs.RedisCtl.Feed.Scan.{Scans, fresh_sources, scan_loop-fresh}
use dnsliar_rs.RedisCtl.Feed.Spares.{Hashes}
use dnsliar_rs.RedisCtl.Feed.Named.{
  Writes, names_key, filters_name, sources_name, fresh-sources_name,
}

module _ {World Fault : Type 0} (connection : Connection World Fault)
    (outside : Outside World Fault) (hashes : Hashes connection outside)
    (writes : Writes connection outside hashes) (key : String) where
  -- The rule as `auto` writes it: both types are answered by the sinks, and the rule is enabled.
  abbrev pub IsAt : World → Type 0
  IsAt w =
      (hashes.hash w key "A" ≡ some "1")
      × (hashes.hash w key "AAAA" ≡ some "1")
      × (hashes.hash w key "enabled" ≡ some "1")

  moved : (w w' : World) → hashes.hash w' key ≡ hashes.hash w key → IsAt w → IsAt w'
  moved w w' e (a, aaaa, on) = (
    ap (λ (hash : String → Option String). hash "A") e ∙ a,
    ap (λ (hash : String → Option String). hash "AAAA") e ∙ aaaa,
    ap (λ (hash : String → Option String). hash "enabled") e ∙ on,
  )

  -- What `auto` writes under each key.
  abbrev pairs_of : String → String → List (String × String)
  pairs_of date src =
      ("A", "1") ∷ ("AAAA", "1") ∷ ("enabled", "1") ∷ ("date", date) ∷ ("source", src) ∷ []

  -- A run that ends with a value, keeps the rule where it is there, and brings it about when `named`.
  abbrev Brings : {A : Type 0} → Bool → Tool World Fault A → World → Type 0
  Brings {A = A} named m w =
      (a : A) × (w' : World) × (m w ≡ (done a, w')) × (IsAt w → IsAt w') × (named ≡ true → IsAt w')

  -- One HSET makes the rule when the key is the same, and keeps it in any case.
  made_by :
      (k date src : String) (w : World)
      → k ≡ key
      → IsAt (connection.hset_multiple k (pairs_of date src) w).1
  made_by k date src w same =
      let sets = λ (field : String). writes.hset_multiple_sets key (pairs_of date src) field w in
      rw same (sets "A", sets "AAAA", sets "enabled")

  kept_by :
      (k date src : String) (w : World)
      → IsAt w
      → IsAt (connection.hset_multiple k (pairs_of date src) w).1
  kept_by k date src w h = elim (Bool-cases (str_eq k key)) [
    | inr e ↦ moved w _ (hashes.hset_multiple_hash k (pairs_of date src) key w e) h
    | inl e ↦ made_by k date src w ((eq_iff k key).0 e)
  ]

  add_domains_run :
      (date src filter : String) (domains : List String) (cnt : ℕ) (w : World)
      → Brings
          (names_key key filter domains)
          (add_domains connection outside date src filter domains cnt)
          w
  unfolding add_domains
  add_domains_run date src filter [] cnt w = (cnt, w, refl, λ h. h, λ e. absurd (false-ne-true e))
    where
      false-ne-true : false ≡ true → ⊥
      false-ne-true h = cc
  add_domains_run date src filter (d ∷ ds) cnt w =
      let k = rule_key filter d in
      let (cnt', w', run, keeps, makes) =
        add_domains_run date src filter ds
          (cnt + added connection outside (connection.hset_multiple k (pairs_of date src) w).0)
          (connection.hset_multiple k (pairs_of date src) w).1 in
      (
        cnt',
        w',
        run,
        λ h. keeps (kept_by k date src w h),
        λ e. elim (Bool-cases (str_eq k key)) [
          | inl s ↦ keeps (made_by k date src w ((eq_iff k key).0 s))
          | inr n ↦ makes (rw n at e)
        ],
      )

  Brings-bind :
      {A B : Type 0} (b c : Bool) (m : Tool World Fault A) (f : A → Tool World Fault B) (w : World)
      → Brings b m w
      → ((a : A) (w' : World) → Brings c (f a) w')
      → Brings (b || c) (m >>= f) w
  unfolding ◌>>=◌
  Brings-bind b c m f w (a, w1, run1, keeps1, makes1) rest =
      let (r, w2, run2, keeps2, makes2) = rest a w1 in
      (
        r,
        w2,
        rw run1 run2,
        λ h. keeps2 (keeps1 h),
        λ e. elim (Bool-cases b) [ inl t ↦ keeps2 (makes1 t) | inr n ↦ makes2 (rw n at e) ],
      )

  Brings-return : {A : Type 0} (a : A) (w : World) → Brings false (return a) w
  unfolding return
  Brings-return a w = (a, w, refl, λ h. h, λ e. absurd (false-ne-true e))
    where
      false-ne-true : false ≡ true → ⊥
      false-ne-true h = cc

  add_filters_run :
      (date src : String) (filters : List Filter) (cnt : ℕ) (w : World)
      → Brings (filters_name key filters) (add_filters connection outside date src filters cnt) w
  unfolding add_filters
  add_filters_run date src [] cnt w = Brings-return cnt w
  add_filters_run date src (f ∷ fs) cnt w =
      Brings-bind (names_key key f.name f.domains) (filters_name key fs) _ _ w
        (add_domains_run date src f.name f.domains cnt w) (add_filters_run date src fs)

  add_sources_run :
      (date : String) (srcs : List Source) (cnt : ℕ) (w : World)
      → Brings (sources_name key srcs) (add_sources connection outside date srcs cnt) w
  unfolding add_sources
  add_sources_run date [] cnt w = Brings-return cnt w
  add_sources_run date (s ∷ ss) cnt w =
      Brings-bind (filters_name key s.filters) (sources_name key ss) _ _ w
        (add_filters_run date s.name s.filters cnt w) (add_sources_run date ss)

  -- Past the loop.
  add_new_run :
      (found : ℕ) (srcs : List Source) (w : World)
      → (w' : World) × (add_new connection outside (some (found, srcs)) w
          ≡ (done (some success), w'))
        × (IsAt w → IsAt w')
        × (sources_name key srcs ≡ true → IsAt w')
  unfolding ◌>>=◌ print get_datetime
  add_new_run found srcs w =
      let report = connection.show_usize found <> " rule(s) already found on Redis" in
      let adding : String = "Adding new rules to Redis..." in
      let w1 = connection.println report w in
      let w2 = connection.println adding w1 in
      let (year, month, day) = connection.now w2 in
      let date = connection.show_4 year <> (connection.show_02 month <> connection.show_02 day) in
      let (cnt, w3, run, keeps, makes) = add_sources_run date srcs 0 w2 in
      let text = connection.show_usize cnt <> " rule(s) added to Redis" in
      (
        connection.println text w3,
        rw run refl,
        λ h. moved w3 _ (hashes.println_hash text key w3) (
            keeps (
              moved w w2 (hashes.println_hash adding key w1 ∙ hashes.println_hash report key w) h)),
        λ e. moved w3 _ (hashes.println_hash text key w3) (makes e),
      )

  -- What is named is found by the loop, or written after it.
  found_or_made :
      (keys : List String) (srcs : List Source)
      → sources_name key srcs ≡ true
      → (contains keys key ≡ true) ⊎ (sources_name key (fresh_sources keys srcs) ≡ true)
  found_or_made keys srcs named = elim (Bool-cases (contains keys key)) [
    | inl e ↦ inl e
    | inr e ↦ inr (fresh-sources_name key keys e srcs ∙ named)
  ]

  named-nonempty : (srcs : List Source) → sources_name key srcs ≡ true → is_empty srcs ≡ false
  named-nonempty [] e = absurd (false-ne-true e)
    where
      false-ne-true : false ≡ true → ⊥
      false-ne-true h = cc
  named-nonempty (s ∷ ss) e = refl

  pub with_sources_run :
      (fuel n dl_cnt : ℕ) (keys : List String) (srcs : List Source) (w w' : World)
      → Scans connection 0
          (connection.println "Querying Redis..." (
            connection.println
              (connection.show_usize dl_cnt <> " file(s) downloaded and encoded")
              w))
          n
          keys
          w'
      → n ≤ fuel
      → sources_name key srcs ≡ true
      → (w'' : World) × (with_sources connection outside fuel (dl_cnt, srcs) w
          ≡ (done (some success), w''))
        × ((contains keys key ≡ true) ⊎ IsAt w'')
  unfolding ◌>>=◌ print
  with_sources_run fuel n dl_cnt keys srcs w w' scans enough named =
      let (found, run, count) =
        scan_loop-fresh connection outside fuel 0 n keys _ w' scans enough 0 srcs in
      let (w'', ended, keeps, makes) = add_new_run found (fresh_sources keys srcs) w' in
      (
        w'',
        rw (named-nonempty srcs named, run) ended,
        elim (found_or_made keys srcs named) [ inl there ↦ inl there | inr new ↦ inr (makes new) ],
      )
