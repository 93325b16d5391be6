-- ===== src/RedisCtl/Feed.antt =====
-- redis-ctl/src/modules/feed.rs: rules from lists of domains. What the file system, the network and
-- the crate serde_json do is the record `Outside`; an error of theirs is the text that is printed.
pub mod Auto
pub mod Single
pub mod Lines
pub mod Scan
pub mod Spares
pub mod Clear
pub mod Kept
pub mod Named
pub mod Brings
pub mod Adds
pub mod Fields
use dnsliar_rs.Base.{
  ℕ, zero, suc, ◌+◌, String, Bool, true, false, ◌||◌, not, Option, none, some, List, [], ◌∷◌, ◌++◌,
  if◌then◌else◌, is_empty, length, ◌==◌,
}
use dnsliar_rs.Base.Text.{◌<>◌, str_eq}
use dnsliar_rs.Base.Words.{
  is_whitespace, is_ascii_whitespace, is_empty_text, starts, lines, words, trim,
}
use dnsliar_rs.Net.{IpAddr, v4, v6, IpText, parse_ip}
use dnsliar_rs.Exec.{Reply, value, fault, Call}
use dnsliar_rs.Config.{filter_map}
use dnsliar_rs.Filtering.{rule_key}
use dnsliar_rs.RedisCtl.{
  Ended, ExitCode, success, code, Tool, return, end, ask, ◌>>=◌, ◌>>◌, Connection, print,
  get_datetime,
}
use dnsliar_rs.RedisCtl.Rules.{rule_fields}

pub record Filter : Type 0 where
  pub name : String
  pub domains : List String

pub record Source : Type 0 where
  pub name : String
  pub filters : List Filter

-- `List` of the source
pub record UrlList : Type 0 where
  pub filter : String
  pub urls : List String

pub record SourcesLists : Type 0 where
  pub name : String
  pub lists : List UrlList

-- What comes of a request: an error, or a response with its status and its text.
pub data Response : Type 0 where
  not_sent : String → Response
  response : Bool → String → Reply String String → Response

pub record Outside (World Fault : Type 0) : Type 0 where
  pub read_to_string : String → Call World String String
  pub parse_sources : String → Reply String (List SourcesLists)
  -- `reqwest::blocking::Client::new()`, which returns or panics
  pub client_new : World → Bool
  pub get : String → World → Response × World
  -- the lines of a file, `none` for one that cannot be read
  pub open_lines : String → Call World Fault (List (Option String))

-- One line of a list, plain or formatted like "hosts.txt": `none` is `continue`.
abbrev pub pick : List String → Option String
pick (domain ∷ []) = some domain
pick (ip ∷ domain ∷ []) = some domain
pick _ = none

unfoldable pub parse_line : String → Option String
unfolding words
parse_line line =
    if is_empty_text line
    then none
    else if starts (λ c. c == b'#') (trim line)
    then none
    else pick (words is_whitespace line)

abbrev pub domains_in : Option String → List String
domains_in none = []
domains_in (some text) = filter_map parse_line (lines text)

abbrev pub downloaded : Option String → ℕ
downloaded none = 0
downloaded (some text) = 1

abbrev pub contains : List String → String → Bool
contains [] key = false
contains (k ∷ ks) key = str_eq k key || contains ks key

module _ (keys : List String) where
  -- `retain`: the domains under which no rule was found, and how many the others are.
  unfoldable pub retain : String → List String → ℕ × List String
  retain filter [] = (0, [])
  retain filter (domain ∷ domains) =
      let (found, kept) = retain filter domains in
      if contains keys (rule_key filter domain) then (suc found, kept) else (found, domain ∷ kept)

  unfoldable pub retain_filters : List Filter → ℕ × List Filter
  unfolding retain
  retain_filters [] = (0, [])
  retain_filters (filter ∷ filters) =
      let (found, kept) = retain filter.name filter.domains in
      let (found', filters') = retain_filters filters in
      (found + found', record filter { domains = kept } ∷ filters')

  unfoldable pub retain_sources : List Source → ℕ × List Source
  unfolding retain_filters
  retain_sources [] = (0, [])
  retain_sources (src ∷ srcs) =
      let (found, kept) = retain_filters src.filters in
      let (found', srcs') = retain_sources srcs in
      (found + found', record src { filters = kept } ∷ srcs')

-- What one reply of `scan` does to the count and the sources.
abbrev pub absorb : List String → ℕ × List Source → ℕ × List Source
absorb keys (found_cnt, srcs) =
    if is_empty keys
    then (found_cnt, srcs)
    else (let (found, srcs') = retain_sources keys srcs in (found_cnt + found, srcs'))
