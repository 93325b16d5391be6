-- ===== src/Tests/Toy.antt =====
-- A small world: Redis with a few keys, a forwarder that knows two names, and a reader of four
-- addresses. The world counts the writes and the messages.
use dnsliar_rs.Base.{
  ℕ, suc, String, ◌≡◌, refl, subst, ◌==◌, Bool, true, false, ◌||◌, Option, none, some, List, [],
  ◌∷◌, All, if◌then◌else◌, length,
}
use dnsliar_rs.Base.Text.{str_eq, to_lowercase}
use dnsliar_rs.Net.{Ipv4Addr, Ipv6Addr, v4, IpText, IpTextLaws}
use dnsliar_rs.Exec.{value}
use dnsliar_rs.Redis.{Redis}
use dnsliar_rs.Dns.{
  Types, RecordType, ResponseCode, RData, Record, Header, OpCode, MessageType, Request,
  LookupResult, records, failed, no_records_found, Hickory, HickoryLaws, RecordIsTyped,
}
use dnsliar_rs.Env.{Env}
use dnsliar_rs.Filtering.{Data, FilteringConfig}

abbrev pub toy_types : Types
toy_types = record {
  World = ℕ;
  Fault = ℕ;
  Name = String;
  Data = String;
  Edns = Bool;
  ResponseInfo = ℕ;
}

abbrev pub ip4 : ℕ → Ipv4Addr
ip4 n = record { octet0 = 192; octet1 = 0; octet2 = 2; octet3 = n }

abbrev pub ip6 : ℕ → Ipv6Addr
ip6 n = record {
  segment0 = 8193;
  segment1 = 3512;
  segment2 = 0;
  segment3 = 0;
  segment4 = 0;
  segment5 = 0;
  segment6 = 0;
  segment7 = n;
}

-- `192.0.2.66` is blocked.
abbrev pub toy_ip : IpText
toy_ip = record {
  parse_v4 = λ s.
      if str_eq s "192.0.2.1"
      then some (ip4 1)
      else if str_eq s "192.0.2.9"
      then some (ip4 9)
      else none;
  parse_v6 = λ s.
      if str_eq s "192.0.2.1" || str_eq s "192.0.2.9"
      then none
      else if str_eq s "2001:db8::1"
      then some (ip6 1)
      else none;
  show_v4 = λ ip.
      if ip.octet3 == 66 then "192.0.2.66" else if ip.octet3 == 9 then "192.0.2.9" else "192.0.2.1";
  show_v6 = λ ip. "2001:db8::1";
}

pub toy_ip-laws : IpTextLaws toy_ip
toy_ip-laws = record {
  v4_not_v6 = λ s ip e. go (str_eq s "192.0.2.1") (str_eq s "192.0.2.9") _ ip e;
}
  where
    go :
        (b c : Bool) (o : Option Ipv6Addr) (ip : Ipv4Addr)
        → (if b then some (ip4 1) else if c then some (ip4 9) else none) ≡ some ip
        → (if b || c then none else o) ≡ none
    go true c o ip e = refl
    go false true o ip e = refl
    go false false o ip e = cc

abbrev pub toy_rule : String → String → Option String
toy_rule key field =
    if str_eq field "A"
    then if str_eq key "DBL;R;ads;example.com"
      then some "1"
      else if str_eq key "DBL;R;ads;org"
      then some "192.0.2.9"
      else if str_eq key "DBL;R;ads;off.net"
      then some "1"
      else none
    else none

abbrev pub toy_enabled : String → Bool
toy_enabled key = if str_eq key "DBL;R;ads;off.net" then false else true

abbrev pub toy_set : String → List String
toy_set key =
    if str_eq key "DBL;sinks;one"
    then "192.0.2.1" ∷ "2001:db8::1" ∷ []
    else if str_eq key "DBL;filters;one"
    then "ads" ∷ []
    else []

abbrev pub toy_redis : Redis ℕ ℕ
toy_redis = record {
  hget = λ key field w. (value (toy_rule key field), w);
  hget_bool = λ key field w. (value (toy_enabled key), w);
  hset_epoch = λ key field n w. (value tt, suc w);
  hincr = λ key field n w. (value tt, suc w);
  sismember = λ key member w. (value (str_eq member "192.0.2.66"), w);
  smembers = λ key w. (value (toy_set key), w);
}

abbrev pub toy_record : String → RData toy_types → Record toy_types
toy_record name rdata = record { name = name; ttl = 60; rdata = rdata }

-- An alias, the address of its target, and the signature of the alias.
abbrev pub alias_records : List (Record toy_types)
alias_records =
    toy_record "www.example.net." (RData.cname "host.example.net.")
    ∷ toy_record "host.example.net." (RData.a (ip4 7))
    ∷ toy_record "www.example.net." (RData.rrsig RecordType.cname "signature")
    ∷ []

-- An address that is blocked.
abbrev pub bad_records : List (Record toy_types)
bad_records = toy_record "bad.example.net." (RData.a (ip4 66)) ∷ []

abbrev toy_lookup : String → LookupResult toy_types
toy_lookup name =
    if str_eq name "www.example.net."
    then records alias_records
    else if str_eq name "bad.example.net."
    then records bad_records
    else failed (no_records_found ResponseCode.serv_fail none none)

abbrev toy_type : RecordType → String
toy_type RecordType.a = "A"
toy_type RecordType.aaaa = "AAAA"
toy_type _ = "OTHER"

abbrev pub toy_hickory : Hickory toy_types
toy_hickory = record {
  name_eq = λ x y. str_eq x y;
  name_to_string = λ name. name;
  to_lowercase = to_lowercase;
  new_name = "";
  type_to_string = toy_type;
  dnssec_ok = λ edns. edns;
  response_from_request = λ request. record {
    id = request.id;
    authoritative = true;
    recursion_available = false;
    response_code = ResponseCode.no_error;
  };
  lookup = λ name type wants_dnssec w. (toy_lookup name, w);
  clear_cache = λ w. suc w;
  send_response = λ message w. (value (length message.answer), suc w);
}

records-injective :
    {xs ys : List (Record toy_types)}
    → ◌≡◌ {A = LookupResult toy_types} (records xs) (records ys)
    → xs ≡ ys
records-injective h = cc

pub toy_laws : HickoryLaws toy_hickory
toy_laws = record {
  lookup-typed = λ name type wants_dnssec w rs e.
      go (str_eq name "www.example.net.") (str_eq name "bad.example.net.") rs e;
}
  where
    go :
        (b c : Bool) (rs : List (Record toy_types))
        → ◌≡◌ {A = LookupResult toy_types}
            (if b
              then records alias_records
              else if c
              then records bad_records
              else failed (no_records_found ResponseCode.serv_fail none none))
            (records rs)
        → All RecordIsTyped rs
    go true c rs e = subst (All RecordIsTyped) (records-injective e) (tt, (tt, (tt, tt)))
    go false true rs e = subst (All RecordIsTyped) (records-injective e) (tt, tt)
    go false false rs e = cc

abbrev pub toy_env : Env toy_types
toy_env = record {
  redis = toy_redis;
  hickory = toy_hickory;
  ip = toy_ip;
  epoch = λ w. (value 1000, w);
}

abbrev pub toy_data : Data
toy_data = record { filters = "ads" ∷ []; sinks = (ip4 1, ip6 1) }

abbrev pub toy_config : FilteringConfig
toy_config = record { is_filtering = true; filtering_data = some toy_data }

abbrev pub toy_header : Header
toy_header = record {
  id = 1;
  authoritative = false;
  recursion_available = true;
  response_code = ResponseCode.no_error;
}

abbrev pub toy_request : OpCode → MessageType → String → RecordType → Request toy_types
toy_request op_code message_type name type = record {
  id = 1;
  op_code = op_code;
  message_type = message_type;
  query_name = value name;
  query_type = type;
  src_ip = v4 (ip4 1);
  edns = some true;
}
