-- ===== src/Net.antt =====
-- The addresses of Rust's `std::net`. How an address is read from a text and written to one is the
-- interface `IpText`; `parse_ip` is `IpAddr::from_str`, which tries IPv4 first.
use dnsliar_rs.Base.{ℕ, String, ◌≡◌, Option, none, some}

pub record Ipv4Addr : Type 0 where
  pub octet0 : ℕ
  pub octet1 : ℕ
  pub octet2 : ℕ
  pub octet3 : ℕ

pub record Ipv6Addr : Type 0 where
  pub segment0 : ℕ
  pub segment1 : ℕ
  pub segment2 : ℕ
  pub segment3 : ℕ
  pub segment4 : ℕ
  pub segment5 : ℕ
  pub segment6 : ℕ
  pub segment7 : ℕ

pub data IpAddr : Type 0 where
  v4 : Ipv4Addr → IpAddr
  v6 : Ipv6Addr → IpAddr

-- `Ipv4Addr::from_str`, `Ipv6Addr::from_str`, and `to_string` of the two.
pub record IpText : Type 0 where
  pub parse_v4 : String → Option Ipv4Addr
  pub parse_v6 : String → Option Ipv6Addr
  pub show_v4 : Ipv4Addr → String
  pub show_v6 : Ipv6Addr → String

abbrev pub as_v6 : Option Ipv6Addr → Option IpAddr
as_v6 none = none
as_v6 (some ip) = some (v6 ip)

abbrev pub v4_or : Option Ipv4Addr → Option IpAddr → Option IpAddr
v4_or none other = other
v4_or (some ip) other = some (v4 ip)

abbrev pub parse_ip : IpText → String → Option IpAddr
parse_ip text s = v4_or (text.parse_v4 s) (as_v6 (text.parse_v6 s))

abbrev pub show_ip : IpText → IpAddr → String
show_ip text (v4 ip) = text.show_v4 ip
show_ip text (v6 ip) = text.show_v6 ip

-- What the documentation of `std::net` says of the two readers: no text is both an IPv4 and an
-- IPv6 address.
pub record IpTextLaws (text : IpText) : Type 0 where
  pub v4_not_v6 : (s : String) (ip : Ipv4Addr) → text.parse_v4 s ≡ some ip → text.parse_v6 s ≡ none
