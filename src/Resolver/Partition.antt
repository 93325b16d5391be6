-- ===== src/Resolver/Partition.antt =====
-- The records that `sort_records` takes, and those in its sections.
use mathlib.Core.List.{Perm, perm_middle, perm_append_singleton, append_assoc, append-nil}
use mathlib.Core.List.Perm
use dnsliar_rs.Base.{
  ◌≡◌, subst, Bool, true, false, Option-cases, inl, inr, List, [], ◌∷◌, ◌++◌, arith, if◌then◌else◌,
}
use dnsliar_rs.Exec.{and_then-eq-ok, ok-injective, ok}
use dnsliar_rs.Dns.{Types, RecordType, Record, rdata_type, type_covered, into_cname, Hickory}
use dnsliar_rs.Resolver.{
  SortedRecords, new, place, sort_loop, sort_records, push_answer, push_name_server, push_soa,
  push_additional, place_rrsig,
}

module _ {T : Types} where
  -- The records of all four sections.
  abbrev pub all_records : SortedRecords T → List (Record T)
  all_records s = s.answer ++ (s.name_servers ++ (s.soas ++ s.additional))

  -- `s'` holds the records of `s`, and `r` once more.
  record Adds (r : Record T) (s s' : SortedRecords T) : Type 0 where
    perm : Perm (all_records s') (r ∷ all_records s)

  push_middle :
      (r : Record T) (pre xs ys : List (Record T))
      → Perm (pre ++ ((xs ++ r ∷ []) ++ ys)) (r ∷ (pre ++ (xs ++ ys)))
  push_middle r pre xs ys =
      rw (append_assoc xs (r ∷ []) ys, ← append_assoc pre xs (r ∷ ys), ← append_assoc pre xs ys)
        (perm_middle (pre ++ xs) ys)

  regroup : (ws xs ys zs : List (Record T)) → ws ++ (xs ++ (ys ++ zs)) ≡ (ws ++ (xs ++ ys)) ++ zs
  regroup ws xs ys zs = simp append_assoc

  push_answer-Adds : (r : Record T) (s : SortedRecords T) → Adds r s (push_answer r s)
  push_answer-Adds r s = record { perm = push_middle r [] s.answer _ }

  push_name_server-Adds : (r : Record T) (s : SortedRecords T) → Adds r s (push_name_server r s)
  push_name_server-Adds r s = record { perm = push_middle r s.answer s.name_servers _ }

  push_soa-Adds : (r : Record T) (s : SortedRecords T) → Adds r s (push_soa r s)
  push_soa-Adds r s = record {
    perm =
        rw
          (
            ← append_assoc s.answer s.name_servers ((s.soas ++ r ∷ []) ++ s.additional),
            ← append_assoc s.answer s.name_servers (s.soas ++ s.additional),
          )
          (push_middle r (s.answer ++ s.name_servers) s.soas s.additional);
  }

  push_additional-Adds : (r : Record T) (s : SortedRecords T) → Adds r s (push_additional r s)
  push_additional-Adds r s = record {
    perm =
        rw
          (
            regroup s.answer s.name_servers s.soas (s.additional ++ r ∷ []),
            regroup s.answer s.name_servers s.soas s.additional,
            ← append_assoc (s.answer ++ (s.name_servers ++ s.soas)) s.additional (r ∷ []),
          )
          (perm_append_singleton r _);
  }

  if-Adds :
      (b : Bool) {x y : SortedRecords T} {r : Record T} {s : SortedRecords T}
      → Adds r s x
      → Adds r s y
      → Adds r s (if b then x else y)
  if-Adds true p q = p
  if-Adds false p q = q

ruleset adds_rules =
    (if-Adds, push_answer-Adds, push_name_server-Adds, push_soa-Adds, push_additional-Adds)

module _ {T : Types} where
  place_rrsig-Adds :
      (covered query_type : RecordType) (owner : Bool) (r : Record T) (s : SortedRecords T)
      → Adds r s (place_rrsig covered query_type owner r s)
  unfolding place_rrsig
  place_rrsig-Adds covered query_type owner r s = search adds_rules

module _ {T : Types} (hickory : Hickory T) (query_name : T.Name) (query_type : RecordType) where
  -- One record goes into exactly one section.
  place-Adds :
      (t : RecordType) (cname : T.Name) (r : Record T) (s : SortedRecords T)
      {next : T.Name × SortedRecords T}
      → place hickory query_name query_type t cname r s ≡ ok next
      → Adds r s next.1
  unfolding place
  place-Adds RecordType.soa cname r s e =
      subst (λ (x : T.Name × SortedRecords T). Adds r s x.1) (ok-injective e) (search adds_rules)
  place-Adds RecordType.ns cname r s e =
      subst (λ (x : T.Name × SortedRecords T). Adds r s x.1) (ok-injective e) (search adds_rules)
  place-Adds RecordType.rrsig cname r s e = elim (Option-cases (type_covered r.rdata)) [
    | inl missing ↦ ground arith
    | inr (covered, found) ↦
        ground (arith, place_rrsig-Adds covered query_type (hickory.name_eq r.name query_name) r s)
  ]
  place-Adds RecordType.cname cname r s e = elim (Option-cases (into_cname r.rdata)) [
    | inl missing ↦ ground arith
    | inr (target, found) ↦ ground (arith, push_answer-Adds r s)
  ]
  place-Adds t cname r s e =
      subst (λ (x : T.Name × SortedRecords T). Adds r s x.1) (ok-injective e) (search adds_rules)

  sort_loop-perm :
      (rs : List (Record T)) (cname : T.Name) (s : SortedRecords T) {s' : SortedRecords T}
      → sort_loop hickory query_name query_type rs cname s ≡ ok s'
      → Perm (all_records s') (rs ++ all_records s)
  unfolding sort_loop
  sort_loop-perm [] cname s e =
      subst (λ (x : SortedRecords T). Perm (all_records x) (all_records s)) (ok-injective e)
        (Perm.refl (all_records s))
  sort_loop-perm (r ∷ rs) cname s e =
      let (next, placed, rest) = and_then-eq-ok _ _ e in
      Perm.trans (sort_loop-perm rs next.0 next.1 rest) (
        Perm.trans
          (Perm.append (Perm.refl rs) (place-Adds (rdata_type r.rdata) cname r s placed).perm)
          (perm_middle rs (all_records s)))

  -- When `sort_records` returns on the records of a lookup, the four sections together hold each of
  -- them, as often as the lookup returned it, and nothing else.
  pub sort_records-perm :
      (rs : List (Record T)) {s : SortedRecords T}
      → sort_records hickory query_name query_type rs new ≡ ok s
      → Perm (all_records s) rs
  unfolding sort_records
  sort_records-perm rs e = rw append-nil at (sort_loop-perm rs hickory.new_name new e)
