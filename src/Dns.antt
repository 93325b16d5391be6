-- ===== src/Dns.antt =====
-- What the daemon sees of the crates `hickory-proto`, `hickory-resolver` and `hickory-server`: the
-- cases of their enums that it tests, the fields that it reads, and their functions as the
-- interface `Hickory`.
use dnsliar_rs.Base.{ℕ, String, ◌≡◌, ◌≢◌, All, Bool, true, false, Option, none, some, List, ◌==◌}
use dnsliar_rs.Net.{Ipv4Addr, Ipv6Addr, IpAddr, v4, v6}
use dnsliar_rs.Exec.{Call, Reply}

-- The types of the external crates that the program only passes on.
pub record Types : Type 1 where
  -- all that lies outside of the program: servers, sockets, the clock
  pub World : Type 0
  -- error values
  pub Fault : Type 0
  -- domain names
  pub Name : Type 0
  -- record data that the program does not look into
  pub Data : Type 0
  pub Edns : Type 0
  -- what `send_response` returns
  pub ResponseInfo : Type 0

pub data RecordType : Type 0 where
  a aaaa soa ns rrsig cname ds : RecordType
  other : ℕ → RecordType

-- `==` on `RecordType`
abbrev pub same_type : RecordType → RecordType → Bool
same_type RecordType.a RecordType.a = true
same_type RecordType.aaaa RecordType.aaaa = true
same_type RecordType.soa RecordType.soa = true
same_type RecordType.ns RecordType.ns = true
same_type RecordType.rrsig RecordType.rrsig = true
same_type RecordType.cname RecordType.cname = true
same_type RecordType.ds RecordType.ds = true
same_type (RecordType.other m) (RecordType.other n) = m == n
same_type _ _ = false

pub data ResponseCode : Type 0 where
  no_error serv_fail nx_domain not_imp refused : ResponseCode
  other : ℕ → ResponseCode

-- `other` is the data of any further type; it may carry any type code, as a DNS update does.
pub data RData (T : Types) : Type 0 where
  a : Ipv4Addr → RData T
  aaaa : Ipv6Addr → RData T
  cname : T.Name → RData T
  ns : T.Data → RData T
  soa : T.Data → RData T
  -- the type that the signature covers, and the rest
  rrsig : RecordType → T.Data → RData T
  other : RecordType → T.Data → RData T

pub record Record (T : Types) : Type 0 where
  pub name : T.Name
  pub ttl : ℕ
  pub rdata : RData T

module _ {T : Types} where
  -- `RData::record_type`
  abbrev pub rdata_type : RData T → RecordType
  rdata_type (RData.a ip) = RecordType.a
  rdata_type (RData.aaaa ip) = RecordType.aaaa
  rdata_type (RData.cname name) = RecordType.cname
  rdata_type (RData.ns d) = RecordType.ns
  rdata_type (RData.soa d) = RecordType.soa
  rdata_type (RData.rrsig covered d) = RecordType.rrsig
  rdata_type (RData.other t d) = t

  -- `RData::ip_addr`
  abbrev pub ip_addr : RData T → Option IpAddr
  ip_addr (RData.a ip) = some (v4 ip)
  ip_addr (RData.aaaa ip) = some (v6 ip)
  ip_addr _ = none

  -- `RData::into_cname().ok()`
  abbrev pub into_cname : RData T → Option T.Name
  into_cname (RData.cname name) = some name
  into_cname _ = none

  -- `into_dnssec()`, `into_rrsig()` and `type_covered()`
  abbrev pub type_covered : RData T → Option RecordType
  type_covered (RData.rrsig covered d) = some covered
  type_covered _ = none

  -- `Record::from_rdata`
  abbrev pub from_rdata : T.Name → ℕ → RData T → Record T
  from_rdata name ttl rdata = record { name = name; ttl = ttl; rdata = rdata }

pub data OpCode : Type 0 where
  query status notify update : OpCode

pub data MessageType : Type 0 where
  query response : MessageType

pub record Request (T : Types) : Type 0 where
  pub id : ℕ
  pub op_code : OpCode
  pub message_type : MessageType
  -- `query().name().into_name()`, which may fail
  pub query_name : Reply T.Fault T.Name
  pub query_type : RecordType
  pub src_ip : IpAddr
  pub edns : Option T.Edns

pub record Header : Type 0 where
  pub id : ℕ
  pub authoritative : Bool
  pub recursion_available : Bool
  pub response_code : ResponseCode

-- The message that `MessageResponseBuilder` builds for a request.
pub record Message (T : Types) : Type 0 where
  pub request : Request T
  pub edns : Option T.Edns
  pub header : Header
  pub answer : List (Record T)
  pub name_servers : List (Record T)
  pub soas : List (Record T)
  pub additional : List (Record T)

-- `ForwardNSData`: a name server's record, and the records that go with it.
pub record ForwardNsData (T : Types) : Type 0 where
  pub ns : Record T
  pub glue : List (Record T)

-- `ResolveError`, by what `proto()` and `kind()` show of it.
pub data LookupError (T : Types) : Type 0 where
  no_records_found :
      ResponseCode → Option (Record T) → Option (List (ForwardNsData T)) → LookupError T
  other_proto : T.Fault → LookupError T
  not_proto : T.Fault → LookupError T

pub data LookupResult (T : Types) : Type 0 where
  records : List (Record T) → LookupResult T
  failed : LookupError T → LookupResult T

-- The functions of the crates.
pub record Hickory (T : Types) : Type 0 where
  -- comparison, `to_string`, `to_lowercase` and `new` of `Name`
  pub name_eq : T.Name → T.Name → Bool
  pub name_to_string : T.Name → String
  pub to_lowercase : T.Name → T.Name
  pub new_name : T.Name
  pub type_to_string : RecordType → String
  pub dnssec_ok : T.Edns → Bool
  pub response_from_request : Request T → Header
  -- `TokioAsyncResolver::lookup` and `clear_cache`
  pub lookup : T.Name → RecordType → Bool → T.World → LookupResult T × T.World
  pub clear_cache : T.World → T.World
  -- `ResponseHandler::send_response`
  pub send_response : Message T → Call T.World T.Fault T.ResponseInfo

-- Data under the type code of a signature or of a CNAME is such data: only an update message holds a
-- bare type code.
abbrev pub IsTyped : {T : Types} → RData T → Type 0
IsTyped (RData.other t d) = (t ≢ RecordType.rrsig) × (t ≢ RecordType.cname)
IsTyped _ = Unit

abbrev pub RecordIsTyped : {T : Types} → Record T → Type 0
RecordIsTyped r = IsTyped r.rdata

-- What the daemon relies on: the records of a lookup are typed, as answers to a query are.
pub record HickoryLaws {T : Types} (hickory : Hickory T) : Type 0 where
  pub lookup-typed :
      (name : T.Name) (type : RecordType) (wants_dnssec : Bool) (w : T.World) (rs : List (Record T))
      → (hickory.lookup name type wants_dnssec w).0 ≡ records rs
      → All RecordIsTyped rs
