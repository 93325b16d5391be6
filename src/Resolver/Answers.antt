-- ===== src/Resolver/Answers.antt =====
-- Which records `sort_records` puts into the answer section.
use dnsliar_rs.Resolver.Negative.{negative_sections, resolve_error-negative}
use dnsliar_rs.Base.{
  ◌∙◌, ap, sym, Option, ◌≡◌, ◌≢◌, refl, subst, Bool, true, false, ◌&&◌, ◌||◌, List, All, All-concat,
  arith, inl, inr, Option-cases, if◌then◌else◌,
}
use dnsliar_rs.Exec.{◌>>=◌, ok-injective, Outcome, ok}
use dnsliar_rs.Resolver.Loop.{sort_loop_induction}
use dnsliar_rs.Dns.{
  not_proto, other_proto, ForwardNsData, records, failed, ResponseCode, no_records_found,
  LookupResult, LookupError, Types, RecordType, same_type, RData, Record, rdata_type, type_covered,
  into_cname, Hickory,
}
use dnsliar_rs.Resolver.{
  new, on_lookup, resolve_error, Conn, resolve, SortedRecords, push_answer, push_soa,
  push_name_server, push_additional, place, place_rrsig, sort_records,
}

module _ {T : Types} (query_type : RecordType) where
  -- A record that holds an address is of the type that was asked for.
  abbrev pub AddressFits : RData T → Type 0
  AddressFits (RData.a ip) = query_type ≡ RecordType.a
  AddressFits (RData.aaaa ip) = query_type ≡ RecordType.aaaa
  AddressFits _ = Unit

  abbrev pub RecordFits : Record T → Type 0
  RecordFits r = AddressFits r.rdata

  fits_of_type : (d : RData T) → same_type (rdata_type d) query_type ≡ true → AddressFits d
  fits_of_type (RData.a ip) h = ground arith
  fits_of_type (RData.aaaa ip) h = ground arith
  fits_of_type _ h = tt

  push-fits :
      (b : Bool) (r : Record T) (s s' : SortedRecords T)
      → s'.answer ≡ s.answer
      → All RecordFits s.answer
      → (b ≡ true → RecordFits r)
      → All RecordFits (if b then push_answer r s else s').answer
  push-fits true r s s' e h f = All-concat RecordFits s.answer r h (f refl)
  push-fits false r s s' e h f = rw e h

  -- A record of a type other than A and AAAA holds no address.
  fits_of_ne :
      (d : RData T) → rdata_type d ≢ RecordType.a → rdata_type d ≢ RecordType.aaaa → AddressFits d
  fits_of_ne (RData.a ip) h k = absurd (h refl)
  fits_of_ne (RData.aaaa ip) h k = absurd (k refl)
  fits_of_ne _ h k = tt

and-or : (a b c : Bool) → (a && b || a && c) ≡ true → a ≡ true
and-or a b c h = ground arith

module _ {T : Types} (hickory : Hickory T) (query_name : T.Name) (query_type : RecordType) where
  abbrev pub AnswerFits : SortedRecords T → Type 0
  AnswerFits s = All (RecordFits query_type) s.answer

  abbrev OutcomeFits : Outcome T.Fault (T.Name × SortedRecords T) → Type 0
  OutcomeFits (ok (_, s)) = AnswerFits s
  OutcomeFits _ = Unit

  place_rrsig-fits :
      (covered : RecordType) (owner : Bool) (r : Record T) (s : SortedRecords T)
      → RecordFits query_type r
      → AnswerFits s
      → AnswerFits (place_rrsig covered query_type owner r s)
  unfolding place_rrsig
  place_rrsig-fits covered owner r s f h =
      ground (arith, All-concat (RecordFits query_type) s.answer r)

  place-fits :
      (t : RecordType) (cname : T.Name) (r : Record T) (s : SortedRecords T)
      → rdata_type r.rdata ≡ t
      → AnswerFits s
      → OutcomeFits (place hickory query_name query_type t cname r s)
  unfolding place
  place-fits RecordType.soa cname r s e h =
      push-fits query_type (same_type query_type RecordType.soa) r s (push_soa r s) refl h
        (λ _. fits_of_ne query_type r.rdata (λ p. cc) (λ p. cc))
  place-fits RecordType.ns cname r s e h =
      push-fits query_type (same_type query_type RecordType.ns) r s (push_name_server r s) refl h
        (λ _. fits_of_ne query_type r.rdata (λ p. cc) (λ p. cc))
  place-fits RecordType.rrsig cname r s e h = elim (Option-cases (type_covered r.rdata)) [
    | inl missing ↦ rw (missing, place) tt
    | inr (covered, found) ↦
        rw (found, place)
          (place_rrsig-fits covered (hickory.name_eq r.name query_name) r s
            (fits_of_ne query_type r.rdata (λ p. cc) (λ p. cc)) h)
  ]
  place-fits RecordType.cname cname r s e h = elim (Option-cases (into_cname r.rdata)) [
    | inl missing ↦ rw (missing, place) tt
    | inr (target, found) ↦
        rw (found, place)
          (All-concat (RecordFits query_type) s.answer r h
            (fits_of_ne query_type r.rdata (λ p. cc) (λ p. cc)))
  ]
  place-fits t cname r s e h =
      push-fits query_type
        ((same_type t query_type && hickory.name_eq r.name query_name)
          || (same_type t query_type && hickory.name_eq r.name cname))
        r s (push_additional r s) refl h
        (λ asked. fits_of_type query_type r.rdata (rw e (and-or _ _ _ asked)))

  -- An address among the answers is of the type that was asked for, so an answer to a question of
  -- another type holds no address.
  sort_records-fits :
      (rs : List (Record T)) (s : SortedRecords T) {s' : SortedRecords T}
      → sort_records hickory query_name query_type rs s ≡ ok s'
      → AnswerFits s
      → AnswerFits s'
  unfolding sort_records
  sort_records-fits rs s e h =
      sort_loop_induction hickory query_name query_type AnswerFits
        (λ cname r s0 next placed fits.
          rw placed at (place-fits (rdata_type r.rdata) cname r s0 refl fits))
        rs hickory.new_name s e h

  resolve_error-fits :
      (e : LookupError T) (conn : Conn T) {s : SortedRecords T}
      → (resolve_error query_name e conn).0 ≡ ok s
      → AnswerFits s
  resolve_error-fits (no_records_found code soa ns) conn e =
      let sections = negative_sections query_name code soa ns in
      subst AnswerFits
        (ok-injective (
          sym (
            ap (λ (x : Outcome T.Fault (SortedRecords T) × Conn T). x.0)
              (resolve_error-negative query_name code soa ns conn))
          ∙ e))
        (negative_sections-fits code soa ns)
    where
      negative_sections-fits :
          (code : ResponseCode) (soa : Option (Record T)) (ns : Option (List (ForwardNsData T)))
          → AnswerFits (negative_sections query_name code soa ns)
      negative_sections-fits ResponseCode.refused soa ns = tt
      negative_sections-fits _ soa ns = tt
  resolve_error-fits (other_proto f) conn e = unfold resolve_error ◌>>=◌ in cc
  resolve_error-fits (not_proto f) conn e = unfold resolve_error ◌>>=◌ in cc

  -- When `resolve` returns, an address in its answer section is of the type that was asked for.
  pub resolve-fits :
      (wants_dnssec : Bool) (conn : Conn T) {s : SortedRecords T}
      → (resolve hickory query_name query_type wants_dnssec conn).0 ≡ ok s
      → AnswerFits s
  unfolding resolve ◌>>=◌
  resolve-fits wants_dnssec conn e =
      go (hickory.lookup query_name query_type wants_dnssec conn.world).0 _ e
    where
      go :
          (result : LookupResult T) (conn' : Conn T) {s : SortedRecords T}
          → (on_lookup hickory query_name query_type result conn').0 ≡ ok s
          → AnswerFits s
      go (failed f) conn' e = resolve_error-fits f conn' e
      go (records rs) conn' e = sort_records-fits rs new e tt
