-- ===== src/Resolver/Total.antt =====
-- The `expect` calls of `sort_records`.
use dnsliar_rs.Base.{Bool, ◌≡◌, refl, Option-cases, inl, inr, none, List, [], ◌∷◌, ◌≢◌, All}
use dnsliar_rs.Exec.{ok}
use dnsliar_rs.Exec.Safe.{Safe, Safe-raise, Safe-bind, Safe-lift, extern-ne}
use dnsliar_rs.Resolver.Negative.{resolve_error-negative}
use dnsliar_rs.Errors.{proto, resolver}
use dnsliar_rs.Dns.{
  HickoryLaws, LookupError, LookupResult, records, failed, no_records_found, other_proto, not_proto,
  RecordIsTyped, IsTyped, Types, RecordType, RData, Record, rdata_type, type_covered, into_cname,
  Hickory,
}
use dnsliar_rs.Resolver.{
  resolve_error, on_lookup, set_response_code, new, resolve, SortedRecords, push_answer,
  place_rrsig, place, sort_loop, sort_records,
}

module _ {T : Types} where
  type_covered-ne-none :
      (d : RData T) → IsTyped d → rdata_type d ≡ RecordType.rrsig → type_covered d ≢ none
  type_covered-ne-none (RData.rrsig c d) h e = λ p. cc
  type_covered-ne-none (RData.other t d) h e = absurd (h.0 e)
  type_covered-ne-none _ h e = λ p. cc

  into_cname-ne-none :
      (d : RData T) → IsTyped d → rdata_type d ≡ RecordType.cname → into_cname d ≢ none
  into_cname-ne-none (RData.cname n) h e = λ p. cc
  into_cname-ne-none (RData.other t d) h e = absurd (h.1 e)
  into_cname-ne-none _ h e = λ p. cc

module _ {T : Types} (hickory : Hickory T) (query_name : T.Name) (query_type : RecordType) where
  place_total :
      (t : RecordType) (cname : T.Name) (r : Record T) (s : SortedRecords T)
      → rdata_type r.rdata ≡ t
      → RecordIsTyped r
      → (next : T.Name × SortedRecords T) × (place hickory query_name query_type t cname r s
          ≡ ok next)
  unfolding place
  place_total RecordType.rrsig cname r s e h = elim (Option-cases (type_covered r.rdata)) [
    | inl missing ↦ absurd (type_covered-ne-none r.rdata h e missing)
    | inr (covered, found) ↦ (
      (cname, place_rrsig covered query_type (hickory.name_eq r.name query_name) r s),
      rw (found, place) refl,
    )
  ]
  place_total RecordType.cname cname r s e h = elim (Option-cases (into_cname r.rdata)) [
    | inl missing ↦ absurd (into_cname-ne-none r.rdata h e missing)
    | inr (target, found) ↦ ((hickory.to_lowercase target, push_answer r s), rw (found, place) refl)
  ]
  place_total _ cname r s e h = (_, refl)

  sort_loop_total :
      (rs : List (Record T)) (cname : T.Name) (s : SortedRecords T)
      → All RecordIsTyped rs
      → (s' : SortedRecords T) × (sort_loop hickory query_name query_type rs cname s ≡ ok s')
  unfolding sort_loop
  sort_loop_total [] cname s h = (s, refl)
  sort_loop_total (r ∷ rs) cname s h =
      let (next, placed) = place_total (rdata_type r.rdata) cname r s refl h.0 in
      let (s', done) = sort_loop_total rs next.0 next.1 h.1 in (s', rw placed done)

  -- On typed records `sort_records` does not panic: it returns the sorted sections.
  pub sort_records_total :
      (rs : List (Record T)) (s : SortedRecords T)
      → All RecordIsTyped rs
      → (s' : SortedRecords T) × (sort_records hickory query_name query_type rs s ≡ ok s')
  unfolding sort_records
  sort_records_total rs s h = sort_loop_total rs hickory.new_name s h

module _ {T : Types} {hickory : Hickory T} (laws : HickoryLaws hickory) (query_name : T.Name)
    (query_type : RecordType) where
  resolve_error-Safe : (e : LookupError T) → Safe (resolve_error query_name e)
  resolve_error-Safe (no_records_found code soa ns) = record {
    at = λ conn. rw (resolve_error-negative query_name code soa ns) tt;
  }
  resolve_error-Safe (other_proto f) = unfold resolve_error in Safe-raise _ (extern-ne (proto f))
  resolve_error-Safe (not_proto f) = unfold resolve_error in Safe-raise _ (extern-ne (resolver f))

  on_lookup-Safe :
      (result : LookupResult T)
      → ((rs : List (Record T)) → result ≡ records rs → All RecordIsTyped rs)
      → Safe (on_lookup hickory query_name query_type result)
  unfolding on_lookup
  on_lookup-Safe (failed e) h = resolve_error-Safe e
  on_lookup-Safe (records rs) h =
      let (s, e) = sort_records_total hickory query_name query_type rs new (h rs refl) in
      Safe-bind _ _ (record { at = λ s. unfold set_response_code in tt })
        (λ _. Safe-lift _ (rw e tt))

  -- When lookups return typed records, `resolve` does not panic.
  pub resolve-Safe :
      (wants_dnssec : Bool) → Safe (resolve hickory query_name query_type wants_dnssec)
  resolve-Safe wants_dnssec = record {
    at = λ conn.
        unfold resolve in
        (on_lookup-Safe _ (laws.lookup-typed query_name query_type wants_dnssec conn.world)).at _;
  }
