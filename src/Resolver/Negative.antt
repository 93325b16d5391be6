-- ===== src/Resolver/Negative.antt =====
-- What the client is told when the lookup finds no records.
use mathlib.Core.List.{append_assoc, append-nil}
use dnsliar_rs.Base.{◌≡◌, refl, ap, ◌∙◌, Option, none, some, List, [], ◌∷◌, ◌++◌, Bool}
use dnsliar_rs.Exec.{◌>>=◌, ok}
use dnsliar_rs.Dns.{
  Types, RecordType, ResponseCode, Record, from_rdata, ForwardNsData, no_records_found, failed,
  Hickory,
}
use dnsliar_rs.Resolver.{
  SortedRecords, Conn, new, ttl_1h, add_ns, add_ns_datas, add_soa, resolve_error, set_response_code,
  resolve,
}

-- The code that the client gets: three are passed on, and any other becomes NOERROR.
abbrev reported : ResponseCode → ResponseCode
reported ResponseCode.refused = ResponseCode.refused
reported ResponseCode.nx_domain = ResponseCode.nx_domain
reported ResponseCode.not_imp = ResponseCode.not_imp
reported _ = ResponseCode.no_error

module _ {T : Types} where
  abbrev all_glue : List (ForwardNsData T) → List (Record T)
  all_glue [] = []
  all_glue (d ∷ ds) = d.glue ++ all_glue ds

  abbrev or_empty : Option (List (ForwardNsData T)) → List (ForwardNsData T)
  or_empty none = []
  or_empty (some ds) = ds

module _ {T : Types} (query_name : T.Name) where
  -- The name server records of a negative answer, under the name asked.
  abbrev referral : List (ForwardNsData T) → List (Record T)
  referral [] = []
  referral (d ∷ ds) = from_rdata query_name ttl_1h d.ns.rdata ∷ referral ds

  abbrev soa_section : Option (Record T) → List (Record T)
  soa_section none = []
  soa_section (some soa) = from_rdata query_name ttl_1h soa.rdata ∷ []

  -- The sections of a negative answer: nothing if the code itself says why.
  abbrev pub negative_sections :
      ResponseCode → Option (Record T) → Option (List (ForwardNsData T)) → SortedRecords T
  negative_sections ResponseCode.refused soa ns = new
  negative_sections ResponseCode.nx_domain soa ns = new
  negative_sections ResponseCode.not_imp soa ns = new
  negative_sections _ soa ns = record {
    answer = [];
    name_servers = referral (or_empty ns);
    soas = soa_section soa;
    additional = all_glue (or_empty ns);
  }

  add_ns_lem :
      (ds : List (ForwardNsData T)) (s : SortedRecords T)
      → add_ns query_name ds s ≡ record s {
        name_servers = s.name_servers ++ referral ds;
        additional = s.additional ++ all_glue ds;
      }
  add_ns_lem [] s = simp append-nil
  add_ns_lem (d ∷ ds) s = add_ns_lem ds _ ∙ simp append_assoc

  -- The sections that the last arm of the match builds up.
  with_ns :
      (soa : Option (Record T)) (ns : Option (List (ForwardNsData T)))
      → add_ns_datas query_name ns (add_soa query_name soa new)
        ≡ negative_sections ResponseCode.no_error soa ns
  with_ns none none = refl
  with_ns (some r) none = refl
  with_ns none (some ds) = add_ns_lem ds new
  with_ns (some r) (some ds) = add_ns_lem ds (add_soa query_name (some r) new)

  pub resolve_error-negative :
      (code : ResponseCode) (soa : Option (Record T)) (ns : Option (List (ForwardNsData T)))
      (conn : Conn T)
      → resolve_error query_name (no_records_found code soa ns) conn ≡ (
        ok (negative_sections code soa ns),
        record conn { header = record conn.header { response_code = reported code } },
      )
  unfolding resolve_error ◌>>=◌
  resolve_error-negative ResponseCode.refused soa ns conn = refl
  resolve_error-negative ResponseCode.nx_domain soa ns conn = refl
  resolve_error-negative ResponseCode.not_imp soa ns conn = refl
  resolve_error-negative _ soa ns conn =
      ap (λ (x : SortedRecords T). (ok x, (set_response_code ResponseCode.no_error conn).1))
        (with_ns soa ns)

module _ {T : Types} (hickory : Hickory T) (query_name : T.Name) (query_type : RecordType)
    (wants_dnssec : Bool) where
  -- When the lookup finds no records, the answer section is empty. REFUSED, NXDOMAIN and NOTIMP go
  -- to the client with empty sections; any other code, SERVFAIL included, is turned into NOERROR,
  -- with the SOA, the name servers and their glue that the forwarder sent.
  pub resolve-negative :
      (conn : Conn T) (code : ResponseCode) (soa : Option (Record T))
      (ns : Option (List (ForwardNsData T)))
      → (hickory.lookup query_name query_type wants_dnssec conn.world).0
        ≡ failed (no_records_found code soa ns)
      → let (result, conn') = resolve hickory query_name query_type wants_dnssec conn in
        (result ≡ ok (negative_sections query_name code soa ns))
        × (conn'.header.response_code ≡ reported code)
  unfolding resolve
  resolve-negative conn code soa ns e =
      rw (e, resolve_error-negative query_name code soa ns) (refl, refl)
