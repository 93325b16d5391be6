-- ===== src/RedisCtl/Feed/Auto.antt =====
-- `auto` of redis-ctl/src/modules/feed.rs: downloading the lists, and writing the rules that are new.
-- The loop over SCAN has no bound in the source: here it has fuel, and `none` is running out of it.
use dnsliar_rs.Base.{
  ℕ, zero, suc, ◌+◌, String, Bool, true, false, Option, none, some, List, [], ◌∷◌, ◌++◌,
  if◌then◌else◌, is_empty, ◌==◌,
}
use dnsliar_rs.Base.Text.{◌<>◌}
use dnsliar_rs.Exec.{Reply, value, fault}
use dnsliar_rs.Filtering.{rule_key}
use dnsliar_rs.RedisCtl.{
  Ended, panicked, ExitCode, success, code, Tool, return, ask, ◌>>=◌, ◌>>◌, Connection, print,
  get_datetime,
}
use dnsliar_rs.RedisCtl.Feed.{
  Filter, Source, UrlList, SourcesLists, Response, not_sent, response, Outside, domains_in,
  downloaded, absorb,
}

module _ {World Fault : Type 0} (connection : Connection World Fault)
    (outside : Outside World Fault) where
  abbrev pub new_client : Tool World Fault (Unit {0})
  new_client w = if outside.client_new w then (Ended.done tt, w) else (panicked, w)

  -- The text of a response, or a message and `continue`.
  abbrev pub text_of : String → Response → Tool World Fault (Option String)
  text_of url (not_sent err) =
      print connection
        ("Error retrieving data from \"" <> (url <> ("\":\n" <> (err <> "\nSkipping..."))))
      >> return none
  text_of url (response false status text) =
      print connection
        ("Error requesting for \"" <> (url <> ("\":\n" <> (status <> "\nSkipping..."))))
      >> return none
  text_of url (response true status (fault err)) =
      print connection ("Error encoding bytes to UTF-8: " <> (err <> "\nSkipping..."))
      >> return none
  text_of url (response true status (value text)) = return (some text)

  unfoldable pub fetch_url : String → Tool World Fault (Option String)
  unfolding print
  fetch_url url w = let (resp, w') = outside.get url w in text_of url resp w'

  unfoldable pub fetch_urls : List String → ℕ → List String → Tool World Fault (ℕ × List String)
  unfolding fetch_url
  fetch_urls [] dl_cnt domains = return (dl_cnt, domains)
  fetch_urls (url ∷ urls) dl_cnt domains = fetch_url url >>= λ text.
      fetch_urls urls (dl_cnt + downloaded text) (domains ++ domains_in text)

  unfoldable pub fetch_lists : List UrlList → ℕ → List Filter → Tool World Fault (ℕ × List Filter)
  unfolding fetch_urls
  fetch_lists [] dl_cnt filters = return (dl_cnt, filters)
  fetch_lists (list ∷ lists) dl_cnt filters =
      fetch_urls list.urls dl_cnt [] >>= λ (dl_cnt', domains).
      fetch_lists lists dl_cnt' (filters ++ record { name = list.filter; domains = domains } ∷ [])

  unfoldable pub fetch_sources :
      List SourcesLists → ℕ → List Source → Tool World Fault (ℕ × List Source)
  unfolding fetch_lists
  fetch_sources [] dl_cnt srcs = return (dl_cnt, srcs)
  fetch_sources (src ∷ rest) dl_cnt srcs = fetch_lists src.lists dl_cnt [] >>= λ (dl_cnt', filters).
      fetch_sources rest dl_cnt' (srcs ++ record { name = src.name; filters = filters } ∷ [])

  -- The loop over `scan`, from a cursor, with the count and the sources so far.
  unfoldable pub scan_loop : ℕ → ℕ → ℕ × List Source → Tool World Fault (Option (ℕ × List Source))
  scan_loop zero cursor found = return none
  scan_loop (suc fuel) cursor found = ask (connection.scan cursor) >>= λ (cursor', scan_keys).
      let again = scan_loop fuel cursor' (absorb scan_keys found) in
      if cursor' == 0 then return (some (absorb scan_keys found)) else again

  abbrev pub added : Reply Fault Bool → ℕ
  added (value true) = 1
  added _ = 0

  -- The innermost loop over the rules that are new; an error is passed over.
  unfoldable pub add_domains : String → String → String → List String → ℕ → Tool World Fault ℕ
  add_domains date src filter [] add_cnt w = (Ended.done add_cnt, w)
  add_domains date src filter (domain ∷ domains) add_cnt w =
      let (reply, w') =
        connection.hset_multiple (rule_key filter domain)
          (("A", "1") ∷ ("AAAA", "1") ∷ ("enabled", "1") ∷ ("date", date) ∷ ("source", src) ∷ [])
          w in
      add_domains date src filter domains (add_cnt + added reply) w'

  unfoldable pub add_filters : String → String → List Filter → ℕ → Tool World Fault ℕ
  unfolding add_domains
  add_filters date src [] add_cnt = return add_cnt
  add_filters date src (filter ∷ filters) add_cnt =
      add_domains date src filter.name filter.domains add_cnt >>= add_filters date src filters

  unfoldable pub add_sources : String → List Source → ℕ → Tool World Fault ℕ
  unfolding add_filters
  add_sources date [] add_cnt = return add_cnt
  add_sources date (src ∷ srcs) add_cnt =
      add_filters date src.name src.filters add_cnt >>= add_sources date srcs

  -- Past the loop over `scan`.
  abbrev pub add_new : Option (ℕ × List Source) → Tool World Fault (Option ExitCode)
  add_new none = return none
  add_new (some (found_cnt, srcs)) = do
    print connection (connection.show_usize found_cnt <> " rule(s) already found on Redis")
    print connection "Adding new rules to Redis..."
    (year, month, day) ← get_datetime connection
    add_cnt ← add_sources (year <> (month <> day)) srcs 0
    print connection (connection.show_usize add_cnt <> " rule(s) added to Redis")
    return (some success)

  abbrev pub with_sources : ℕ → ℕ × List Source → Tool World Fault (Option ExitCode)
  with_sources fuel (dl_cnt, srcs) = do
    print connection (connection.show_usize dl_cnt <> " file(s) downloaded and encoded")
    if is_empty srcs
        then print connection "No data was retrieved" >> return (some (code 74))
        else (print connection "Querying Redis..." >> (scan_loop fuel 0 (0, srcs) >>= add_new))

  abbrev pub with_list : ℕ → Reply String (List SourcesLists) → Tool World Fault (Option ExitCode)
  with_list fuel (fault err) =
      print connection ("Error deserializing \"dnsblrs_sources.json\" data: " <> err)
      >> return (some (code 65))
  with_list fuel (value srcs_list) =
      new_client
      >> (print connection "Downloading and encoding files..."
          >> (fetch_sources srcs_list 0 [] >>= with_sources fuel))

  abbrev pub with_data : ℕ → Reply String String → Tool World Fault (Option ExitCode)
  with_data fuel (fault err) =
      print connection ("Error reading \"dnsblrs_sources.json\": " <> err)
      >> return (some (code 66))
  with_data fuel (value text) = with_list fuel (outside.parse_sources text)

  unfoldable pub auto : ℕ → String → Tool World Fault (Option ExitCode)
  unfolding fetch_sources scan_loop add_sources print get_datetime
  auto fuel path_to_srcs w =
      let (text, w') = outside.read_to_string path_to_srcs w in with_data fuel text w'
