-- ===== src/RedisCtl/Feed/Kept.antt =====
-- `auto` and the rules that are there when it begins.
use dnsliar_rs.Base.{
  ℕ, zero, suc, String, ◌≡◌, refl, ◌∙◌, Bool-cases, inl, inr, true, false, Option, none, some, List,
  [], ◌∷◌,
}
use dnsliar_rs.Exec.{Reply, value, fault}
use dnsliar_rs.Filtering.{rule_key}
use dnsliar_rs.RedisCtl.{done, Tool, ◌>>=◌, Connection, print, get_datetime}
use dnsliar_rs.RedisCtl.Feed.{
  Filter, Source, UrlList, SourcesLists, Response, not_sent, response, Outside,
}
use dnsliar_rs.RedisCtl.Feed.Auto.{
  new_client, text_of, fetch_url, fetch_urls, fetch_lists, fetch_sources, scan_loop, add_domains,
  add_filters, add_sources, add_new, with_sources, with_list, with_data, auto,
}
use dnsliar_rs.RedisCtl.Feed.Spares.{
  Hashes, Spares, Spares-return, Spares-ask, Spares-if, Spares-bind, Spares-bind_of,
}
use dnsliar_rs.RedisCtl.Feed.Clear.{
  IsClear, AreClear, AllClear, fresh_sources-AllClear, scan_loop-Scans,
}

module _ {World Fault : Type 0} (connection : Connection World Fault)
    (outside : Outside World Fault) (hashes : Hashes connection outside)
    (filter domain field val : String) where
  abbrev key : String
  key = rule_key filter domain

  abbrev IsKept : {A : Type 0} → Tool World Fault A → Type 0
  IsKept m = Spares hashes.hash key field val m

  Spares-print : (text : String) → IsKept (print connection text)
  unfolding print
  Spares-print text = record { at = λ w h. hashes.println_hash text key w }

  Spares-datetime : IsKept (get_datetime connection)
  unfolding get_datetime
  Spares-datetime = record { at = λ w h. refl }

  ruleset kept = (Spares-return, Spares-if, Spares-bind, Spares-print, Spares-datetime)

  text_of-IsKept : (url : String) (r : Response) → IsKept (text_of connection outside url r)
  text_of-IsKept url (not_sent err) = search kept
  text_of-IsKept url (response false status text) = search kept
  text_of-IsKept url (response true status (fault err)) = search kept
  text_of-IsKept url (response true status (value text)) = search kept

  new_client-IsKept : IsKept (new_client connection outside)
  new_client-IsKept = record {
    at = λ w h. elim (Bool-cases (outside.client_new w)) [ inl e ↦ rw e refl | inr e ↦ rw e refl ];
  }

  fetch_url-IsKept : (url : String) → IsKept (fetch_url connection outside url)
  unfolding fetch_url
  fetch_url-IsKept url = record {
    at = λ w h.
        let got = hashes.get_hash url key w in
        (text_of-IsKept url (outside.get url w).0).at (outside.get url w).1 (rw got h) ∙ got;
  }

  fetch_urls-IsKept :
      (urls : List String) (dl : ℕ) (domains : List String)
      → IsKept (fetch_urls connection outside urls dl domains)
  unfolding fetch_urls
  fetch_urls-IsKept [] dl domains = search kept
  fetch_urls-IsKept (url ∷ urls) dl domains =
      Spares-bind _ _ _ _ _ _ (fetch_url-IsKept url) (λ text. fetch_urls-IsKept urls _ _)

  fetch_lists-IsKept :
      (lists : List UrlList) (dl : ℕ) (filters : List Filter)
      → IsKept (fetch_lists connection outside lists dl filters)
  unfolding fetch_lists
  fetch_lists-IsKept [] dl filters = search kept
  fetch_lists-IsKept (list ∷ lists) dl filters =
      Spares-bind _ _ _ _ _ _ (fetch_urls-IsKept list.urls dl [])
        (λ p. fetch_lists-IsKept lists _ _)

  fetch_sources-IsKept :
      (rest : List SourcesLists) (dl : ℕ) (srcs : List Source)
      → IsKept (fetch_sources connection outside rest dl srcs)
  unfolding fetch_sources
  fetch_sources-IsKept [] dl srcs = search kept
  fetch_sources-IsKept (src ∷ rest) dl srcs =
      Spares-bind _ _ _ _ _ _ (fetch_lists-IsKept src.lists dl [])
        (λ p. fetch_sources-IsKept rest _ _)

  scan_loop-IsKept :
      (fuel cursor : ℕ) (found : ℕ × List Source)
      → IsKept (scan_loop connection outside fuel cursor found)
  unfolding scan_loop
  scan_loop-IsKept zero cursor found = search kept
  scan_loop-IsKept (suc fuel) cursor found =
      Spares-bind _ _ _ _ _ _ (Spares-ask _ _ _ _ _ (λ w. hashes.scan_hash cursor key w))
        (λ p. Spares-if _ _ _ _ _ _ _ (Spares-return _ _ _ _ _) (scan_loop-IsKept fuel _ _))

  -- Writing rules of other keys.
  add_domains-IsKept :
      (date src name : String) (domains : List String) (cnt : ℕ)
      → IsClear key name domains
      → IsKept (add_domains connection outside date src name domains cnt)
  unfolding add_domains
  add_domains-IsKept date src name [] cnt c = record { at = λ w h. refl }
  add_domains-IsKept date src name (d ∷ ds) cnt (c, cs) = record {
    at = λ w h.
        let kept_one =
          hashes.hset_multiple_hash (rule_key name d)
            (("A", "1") ∷ ("AAAA", "1") ∷ ("enabled", "1") ∷ ("date", date) ∷ ("source", src) ∷ [])
            key w c in
        (add_domains-IsKept date src name ds _ cs).at _ (rw kept_one h) ∙ kept_one;
  }

  add_filters-IsKept :
      (date src : String) (filters : List Filter) (cnt : ℕ)
      → AreClear key filters
      → IsKept (add_filters connection outside date src filters cnt)
  unfolding add_filters
  add_filters-IsKept date src [] cnt c = search kept
  add_filters-IsKept date src (f ∷ fs) cnt (c, cs) =
      Spares-bind _ _ _ _ _ _ (add_domains-IsKept date src f.name f.domains cnt c)
        (λ n. add_filters-IsKept date src fs n cs)

  add_sources-IsKept :
      (date : String) (srcs : List Source) (cnt : ℕ)
      → AllClear key srcs
      → IsKept (add_sources connection outside date srcs cnt)
  unfolding add_sources
  add_sources-IsKept date [] cnt c = search kept
  add_sources-IsKept date (s ∷ ss) cnt (c, cs) =
      Spares-bind _ _ _ _ _ _ (add_filters-IsKept date s.name s.filters cnt c)
        (λ n. add_sources-IsKept date ss n cs)

  add_new-IsKept :
      (found : ℕ) (srcs : List Source)
      → AllClear key srcs
      → IsKept (add_new connection outside (some (found, srcs)))
  add_new-IsKept found srcs c = search (kept, add_sources-IsKept) depth 20

  -- What the loop returns is clear of the rule, so that the writes after it are.
  past_loop :
      (fuel found : ℕ) (srcs : List Source)
      → IsKept (scan_loop connection outside fuel 0 (found, srcs) >>= add_new connection outside)
  past_loop fuel found srcs =
      Spares-bind_of _ _ _ _ _ _ (scan_loop-IsKept fuel 0 (found, srcs)) after
    where
      after :
          (w : World)
          → hashes.hash w key field ≡ some val
          → (o : Option (ℕ × List Source))
          → (scan_loop connection outside fuel 0 (found, srcs) w).0 ≡ done o
          → IsKept (add_new connection outside o)
      after w h none e = search kept
      after w h (some (found', srcs')) e =
          let (n, keys, w', scans, same) =
            scan_loop-Scans connection outside fuel 0 found srcs w found' srcs' e in
          add_new-IsKept found' srcs' (
            rw same (
              fresh_sources-AllClear key keys
                (hashes.scan_complete n keys w w' scans filter domain field val h) srcs))

  pub with_sources-IsKept :
      (fuel : ℕ) (p : ℕ × List Source) → IsKept (with_sources connection outside fuel p)
  with_sources-IsKept fuel p = search (kept, past_loop) depth 20

  with_list-IsKept :
      (fuel : ℕ) (reply : Reply String (List SourcesLists))
      → IsKept (with_list connection outside fuel reply)
  with_list-IsKept fuel (fault err) = search kept
  with_list-IsKept fuel (value srcs_list) =
      search (kept, new_client-IsKept, fetch_sources-IsKept, with_sources-IsKept) depth 20

  with_data-IsKept :
      (fuel : ℕ) (reply : Reply String String) → IsKept (with_data connection outside fuel reply)
  with_data-IsKept fuel (fault err) = search kept
  with_data-IsKept fuel (value text) = with_list-IsKept fuel (outside.parse_sources text)

  -- `auto` leaves the whole hash of a rule that is on Redis when it begins as it is, whatever lists
  -- are downloaded, in any filter, also when it stops on an error: a rule that was disabled or that
  -- has its own addresses stays so. This needs that a whole iteration of SCAN replies each rule
  -- that is there when it begins, that HSET writes the hash of its key only, and that nothing else
  -- that `auto` calls writes hashes.
  pub auto-keeps :
      (fuel : ℕ) (path_to_srcs : String) (w : World)
      → hashes.hash w key field ≡ some val
      → hashes.hash (auto connection outside fuel path_to_srcs w).1 key ≡ hashes.hash w key
  unfolding auto
  auto-keeps fuel path_to_srcs w h =
      let read = hashes.read_hash path_to_srcs key w in
      (with_data-IsKept fuel (outside.read_to_string path_to_srcs w).0).at
        (outside.read_to_string path_to_srcs w).1 (rw read h)
      ∙ read
