-- ===== src/Resolver.antt =====
-- dnsblrsd/src/resolver.rs: forwarding a query and sorting the records that come back into the
-- sections of the response. `lookup` is the crate's; what it is built from is in Resolver/Build.
pub mod Loop
pub mod Partition
pub mod Negative
pub mod Total
pub mod Answers
pub mod Build
use dnsliar_rs.Base.{
  ℕ, String, Bool, true, false, ◌&&◌, ◌||◌, Option, none, some, List, [], ◌∷◌, ◌++◌, if◌then◌else◌,
}
use dnsliar_rs.Errors.{from_resolve_error, from_proto_error}
use dnsliar_rs.Exec.{Outcome, ok, panic, and_then, Exec, pure, raise, lift, ◌>>=◌, ◌>>◌}
use dnsliar_rs.Dns.{
  Types, RecordType, same_type, ResponseCode, RData, Record, rdata_type, into_cname, type_covered,
  from_rdata, Header, ForwardNsData, LookupError, no_records_found, other_proto, not_proto,
  LookupResult, records, failed, Hickory,
}

abbrev pub ttl_1h : ℕ
ttl_1h = 3600

pub record SortedRecords (T : Types) : Type 0 where
  pub answer : List (Record T)
  pub name_servers : List (Record T)
  pub soas : List (Record T)
  pub additional : List (Record T)

-- What a handler works on: the response's header, which it is lent, and the outside world.
pub record Conn (T : Types) : Type 0 where
  pub header : Header
  pub world : T.World

module _ {T : Types} where
  -- `SortedRecords::new`
  abbrev pub new : SortedRecords T
  new = record { answer = []; name_servers = []; soas = []; additional = [] }

  abbrev pub push_answer : Record T → SortedRecords T → SortedRecords T
  push_answer r sorted = record sorted { answer = sorted.answer ++ r ∷ [] }

  abbrev pub push_name_server : Record T → SortedRecords T → SortedRecords T
  push_name_server r sorted = record sorted { name_servers = sorted.name_servers ++ r ∷ [] }

  abbrev pub push_soa : Record T → SortedRecords T → SortedRecords T
  push_soa r sorted = record sorted { soas = sorted.soas ++ r ∷ [] }

  abbrev pub push_additional : Record T → SortedRecords T → SortedRecords T
  push_additional r sorted = record sorted { additional = sorted.additional ++ r ∷ [] }

  -- The arm of a signature: by the type that it covers, and by whether its owner is the name asked.
  unfoldable pub place_rrsig :
      RecordType → RecordType → Bool → Record T → SortedRecords T → SortedRecords T
  place_rrsig covered query_type owner r sorted =
      if same_type covered query_type && owner
      then push_answer r sorted
      else if (same_type covered RecordType.soa || same_type covered RecordType.ds) && owner
      then push_soa r sorted
      else if same_type covered RecordType.ns && owner
      then push_name_server r sorted
      else push_additional r sorted

module _ {T : Types} (hickory : Hickory T) (query_name : T.Name) (query_type : RecordType) where
  -- The body of the loop of `sort_records`, by the record's type: the CNAME target last seen and
  -- the sections so far. The two `expect` calls are the panics.
  unfoldable pub place :
      RecordType → T.Name → Record T → SortedRecords T → Outcome T.Fault (T.Name × SortedRecords T)
  unfolding place_rrsig
  place RecordType.soa cname r sorted = ok (
    cname,
    if same_type query_type RecordType.soa then push_answer r sorted else push_soa r sorted,
  )
  place RecordType.ns cname r sorted = ok (
    cname,
    if same_type query_type RecordType.ns then push_answer r sorted else push_name_server r sorted,
  )
  place RecordType.rrsig cname r sorted = elim (type_covered r.rdata) [
    | none ↦ panic
    | some covered ↦
        ok (cname, place_rrsig covered query_type (hickory.name_eq r.name query_name) r sorted)
  ]
  place RecordType.cname cname r sorted = elim (into_cname r.rdata) [
    | none ↦ panic
    | some target ↦ ok (hickory.to_lowercase target, push_answer r sorted)
  ]
  place type cname r sorted = ok (
    cname,
    if (same_type type query_type && hickory.name_eq r.name query_name)
          || (same_type type query_type && hickory.name_eq r.name cname)
        then push_answer r sorted
        else push_additional r sorted,
  )

  -- The loop, from the CNAME target `cname`.
  unfoldable pub sort_loop :
      List (Record T) → T.Name → SortedRecords T → Outcome T.Fault (SortedRecords T)
  sort_loop [] cname sorted = ok sorted
  sort_loop (r ∷ rs) cname sorted =
      and_then (place (rdata_type r.rdata) cname r sorted) (λ next. sort_loop rs next.0 next.1)

  unfoldable pub sort_records :
      List (Record T) → SortedRecords T → Outcome T.Fault (SortedRecords T)
  unfolding sort_loop
  sort_records rs sorted = sort_loop rs hickory.new_name sorted

module _ {T : Types} where
  unfoldable pub set_response_code : ResponseCode → Exec T.Fault (Conn T) (Unit {0})
  set_response_code code conn =
      (ok tt, record conn { header = record conn.header { response_code = code } })

  -- The SOA record of a negative answer, if there is one.
  abbrev pub add_soa : T.Name → Option (Record T) → SortedRecords T → SortedRecords T
  add_soa query_name none sorted = sorted
  add_soa query_name (some soa) sorted = push_soa (from_rdata query_name ttl_1h soa.rdata) sorted

  -- Each name server of a negative answer, and its glue.
  abbrev pub add_ns : T.Name → List (ForwardNsData T) → SortedRecords T → SortedRecords T
  add_ns query_name [] sorted = sorted
  add_ns query_name (ns_data ∷ rest) sorted =
      let pushed = push_name_server (from_rdata query_name ttl_1h ns_data.ns.rdata) sorted in
      add_ns query_name rest (record pushed { additional = pushed.additional ++ ns_data.glue })

  abbrev pub add_ns_datas :
      T.Name → Option (List (ForwardNsData T)) → SortedRecords T → SortedRecords T
  add_ns_datas query_name none sorted = sorted
  add_ns_datas query_name (some ns_datas) sorted = add_ns query_name ns_datas sorted

  -- The arms on a failed lookup.
  unfoldable pub resolve_error : T.Name → LookupError T → Exec T.Fault (Conn T) (SortedRecords T)
  unfolding set_response_code
  resolve_error query_name (no_records_found ResponseCode.refused soa ns) =
      set_response_code ResponseCode.refused >> pure new
  resolve_error query_name (no_records_found ResponseCode.nx_domain soa ns) =
      set_response_code ResponseCode.nx_domain >> pure new
  resolve_error query_name (no_records_found ResponseCode.not_imp soa ns) =
      set_response_code ResponseCode.not_imp >> pure new
  resolve_error query_name (no_records_found _ soa ns) =
      set_response_code ResponseCode.no_error
      >> pure (add_ns_datas query_name ns (add_soa query_name soa new))
  resolve_error query_name (other_proto proto_err) = raise (from_proto_error proto_err)
  resolve_error query_name (not_proto err) = raise (from_resolve_error err)

module _ {T : Types} (hickory : Hickory T) where
  unfoldable pub on_lookup :
      T.Name → RecordType → LookupResult T → Exec T.Fault (Conn T) (SortedRecords T)
  unfolding resolve_error
  on_lookup query_name query_type (failed e) = resolve_error query_name e
  on_lookup query_name query_type (records rs) =
      set_response_code ResponseCode.no_error
      >> lift (sort_records hickory query_name query_type rs new)

  unfoldable pub resolve : T.Name → RecordType → Bool → Exec T.Fault (Conn T) (SortedRecords T)
  unfolding on_lookup
  resolve query_name query_type wants_dnssec conn =
      let (result, world) = hickory.lookup query_name query_type wants_dnssec conn.world in
      on_lookup query_name query_type result (record conn { world = world })
