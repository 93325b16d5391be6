-- ===== src/RedisCtl/Main/FeedPanics.antt =====
-- Panics in the functions that feed lists.
use dnsliar_rs.Base.{
  ◌≡◌, ℕ, zero, suc, ◌+◌, String, Bool, true, false, Option, none, some, List, [], ◌∷◌,
}
use dnsliar_rs.Net.{IpText}
use dnsliar_rs.Exec.{Reply, value, fault}
use dnsliar_rs.RedisCtl.{Connection}
use dnsliar_rs.RedisCtl.NoPanic.{
  NoPanic, NoPanic-return, NoPanic-ask, NoPanic-if, NoPanic-bind, no_panic,
}
use dnsliar_rs.RedisCtl.Feed.{
  Outside, Source, Filter, UrlList, SourcesLists, Response, not_sent, response,
}
use dnsliar_rs.RedisCtl.Feed.Auto.{
  new_client, text_of, fetch_url, fetch_urls, fetch_lists, fetch_sources, scan_loop, add_domains,
  add_filters, add_sources, add_new, with_sources, with_list, with_data, auto,
}
use dnsliar_rs.RedisCtl.Feed.Single.{
  report_ip, feed_ips, feed_args, count_added, feed_rule, feed_words, feed_line, feed_lines,
  add_to_filter,
}

module _ {World Fault : Type 0} (connection : Connection World Fault)
    (outside : Outside World Fault) where
  text_of-NoPanic : (url : String) (r : Response) → NoPanic (text_of connection outside url r)
  text_of-NoPanic url (not_sent err) = search no_panic
  text_of-NoPanic url (response false status text) = search no_panic
  text_of-NoPanic url (response true status (fault err)) = search no_panic
  text_of-NoPanic url (response true status (value text)) = search no_panic

  fetch_url-NoPanic : (url : String) → NoPanic (fetch_url connection outside url)
  unfolding fetch_url
  fetch_url-NoPanic url = record { at = λ w. (text_of-NoPanic url (outside.get url w).0).at _ }

  fetch_urls-NoPanic :
      (urls : List String) (dl : ℕ) (domains : List String)
      → NoPanic (fetch_urls connection outside urls dl domains)
  unfolding fetch_urls
  fetch_urls-NoPanic [] dl domains = search no_panic
  fetch_urls-NoPanic (url ∷ urls) dl domains =
      NoPanic-bind _ _ (fetch_url-NoPanic url) (λ text. fetch_urls-NoPanic urls _ _)

  fetch_lists-NoPanic :
      (lists : List UrlList) (dl : ℕ) (filters : List Filter)
      → NoPanic (fetch_lists connection outside lists dl filters)
  unfolding fetch_lists
  fetch_lists-NoPanic [] dl filters = search no_panic
  fetch_lists-NoPanic (list ∷ lists) dl filters =
      NoPanic-bind _ _ (fetch_urls-NoPanic list.urls dl []) (λ p. fetch_lists-NoPanic lists _ _)

  fetch_sources-NoPanic :
      (rest : List SourcesLists) (dl : ℕ) (srcs : List Source)
      → NoPanic (fetch_sources connection outside rest dl srcs)
  unfolding fetch_sources
  fetch_sources-NoPanic [] dl srcs = search no_panic
  fetch_sources-NoPanic (src ∷ rest) dl srcs =
      NoPanic-bind _ _ (fetch_lists-NoPanic src.lists dl []) (λ p. fetch_sources-NoPanic rest _ _)

  scan_loop-NoPanic :
      (fuel cursor : ℕ) (found : ℕ × List Source)
      → NoPanic (scan_loop connection outside fuel cursor found)
  unfolding scan_loop
  scan_loop-NoPanic zero cursor found = search no_panic
  scan_loop-NoPanic (suc fuel) cursor found =
      NoPanic-bind _ _ (NoPanic-ask _)
        (λ p. NoPanic-if _ _ _ (NoPanic-return _) (scan_loop-NoPanic fuel _ _))

  add_domains-NoPanic :
      (date src filter : String) (domains : List String) (cnt : ℕ)
      → NoPanic (add_domains connection outside date src filter domains cnt)
  unfolding add_domains
  add_domains-NoPanic date src filter [] cnt = record { at = λ w. tt }
  add_domains-NoPanic date src filter (d ∷ ds) cnt = record {
    at = λ w. (add_domains-NoPanic date src filter ds _).at _;
  }

  add_filters-NoPanic :
      (date src : String) (filters : List Filter) (cnt : ℕ)
      → NoPanic (add_filters connection outside date src filters cnt)
  unfolding add_filters
  add_filters-NoPanic date src [] cnt = search no_panic
  add_filters-NoPanic date src (f ∷ fs) cnt =
      NoPanic-bind _ _ (add_domains-NoPanic date src f.name f.domains cnt)
        (add_filters-NoPanic date src fs)

  add_sources-NoPanic :
      (date : String) (srcs : List Source) (cnt : ℕ)
      → NoPanic (add_sources connection outside date srcs cnt)
  unfolding add_sources
  add_sources-NoPanic date [] cnt = search no_panic
  add_sources-NoPanic date (s ∷ ss) cnt =
      NoPanic-bind _ _ (add_filters-NoPanic date s.name s.filters cnt) (add_sources-NoPanic date ss)

  add_new-NoPanic : (o : Option (ℕ × List Source)) → NoPanic (add_new connection outside o)
  add_new-NoPanic none = search no_panic
  add_new-NoPanic (some (found_cnt, srcs)) = search (no_panic, add_sources-NoPanic) depth 20

  with_sources-NoPanic :
      (fuel : ℕ) (p : ℕ × List Source) → NoPanic (with_sources connection outside fuel p)
  with_sources-NoPanic fuel p = search (no_panic, scan_loop-NoPanic, add_new-NoPanic) depth 20

  module _ (client : (w : World) → outside.client_new w ≡ true) where
    new_client-NoPanic : NoPanic (new_client connection outside)
    new_client-NoPanic = record { at = λ w. rw (client w) tt }

    with_data-NoPanic :
        (fuel : ℕ) (reply : Reply String String) → NoPanic (with_data connection outside fuel reply)
    with_data-NoPanic fuel (fault err) = search no_panic
    with_data-NoPanic fuel (value text) = with_list-NoPanic (outside.parse_sources text)
      where
        with_list-NoPanic :
            (reply : Reply String (List SourcesLists))
            → NoPanic (with_list connection outside fuel reply)
        with_list-NoPanic (fault err) = search no_panic
        with_list-NoPanic (value srcs_list) =
            NoPanic-bind _ _ new_client-NoPanic
              (λ u. search (no_panic, fetch_sources-NoPanic, with_sources-NoPanic) depth 20)

    pub auto-NoPanic : (fuel : ℕ) (path : String) → NoPanic (auto connection outside fuel path)
    unfolding auto
    auto-NoPanic fuel path = record {
      at = λ w. (with_data-NoPanic fuel (outside.read_to_string path w).0).at _;
    }

module _ {World Fault : Type 0} (connection : Connection World Fault) (text : IpText) where
  report_ip-NoPanic :
      (line_cnt : ℕ) (o : Option (List String)) → NoPanic (report_ip connection text line_cnt o)
  report_ip-NoPanic line_cnt none = search no_panic
  report_ip-NoPanic line_cnt (some args) = search no_panic

  feed_ips-NoPanic :
      (line_cnt : ℕ) (ips args : List String) → NoPanic (feed_ips connection text line_cnt ips args)
  unfolding feed_ips
  feed_ips-NoPanic line_cnt [] args = search no_panic
  feed_ips-NoPanic line_cnt (ip ∷ ips) args =
      NoPanic-bind _ _ (report_ip-NoPanic line_cnt _) (λ u. feed_ips-NoPanic line_cnt ips _)

  feed_args-NoPanic :
      (line_cnt : ℕ) (ips args : List String)
      → NoPanic (feed_args connection text line_cnt ips args)
  unfolding feed_args
  feed_args-NoPanic line_cnt ips args = search (no_panic, feed_ips-NoPanic)

  count_added-NoPanic :
      (line_cnt add_cnt : ℕ) (reply : Reply Fault Bool)
      → NoPanic (count_added connection text line_cnt add_cnt reply)
  count_added-NoPanic line_cnt add_cnt (value true) = search no_panic
  count_added-NoPanic line_cnt add_cnt (value false) = search no_panic
  count_added-NoPanic line_cnt add_cnt (fault err) = search no_panic

  feed_rule-NoPanic :
      (key : String) (line_cnt add_cnt : ℕ) (args : List String)
      → NoPanic (feed_rule connection text key line_cnt add_cnt args)
  feed_rule-NoPanic key line_cnt add_cnt args = record {
    at = λ w. (count_added-NoPanic line_cnt add_cnt (connection.command "hset" key args w).0).at _;
  }

  module _ (filter date src : String) where
    feed_words-NoPanic :
        (line_cnt add_cnt : ℕ) (ws : List String)
        → NoPanic (feed_words connection text filter date src line_cnt add_cnt ws)
    feed_words-NoPanic line_cnt add_cnt [] = search no_panic
    feed_words-NoPanic line_cnt add_cnt (domain ∷ ips) =
        NoPanic-bind _ _ (feed_args-NoPanic line_cnt ips _)
          (λ args. feed_rule-NoPanic _ line_cnt add_cnt args)

    feed_line-NoPanic :
        (line_cnt add_cnt : ℕ) (o : Option String)
        → NoPanic (feed_line connection text filter date src line_cnt add_cnt o)
    feed_line-NoPanic line_cnt add_cnt none = search no_panic
    feed_line-NoPanic line_cnt add_cnt (some line) = feed_words-NoPanic line_cnt add_cnt _

    feed_lines-NoPanic :
        (lines : List (Option String)) (line_cnt add_cnt : ℕ)
        → NoPanic (feed_lines connection text filter date src lines line_cnt add_cnt)
    unfolding feed_lines
    feed_lines-NoPanic [] line_cnt add_cnt = search no_panic
    feed_lines-NoPanic (line ∷ lines) line_cnt add_cnt =
        NoPanic-bind _ _ (feed_line-NoPanic (line_cnt + 1) add_cnt line)
          (feed_lines-NoPanic lines (line_cnt + 1))

  pub add_to_filter-NoPanic :
      (outside : Outside World Fault) (path filter src : String)
      → NoPanic (add_to_filter connection text outside path filter src)
  unfolding add_to_filter
  add_to_filter-NoPanic outside path filter src = search (no_panic, feed_lines-NoPanic) depth 20
