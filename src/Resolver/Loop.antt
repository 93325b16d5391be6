-- ===== src/Resolver/Loop.antt =====
-- Induction over the loop of `sort_records`.
use dnsliar_rs.Base.{◌≡◌, subst, List, [], ◌∷◌}
use dnsliar_rs.Exec.{and_then-eq-ok, ok}
use dnsliar_rs.Dns.{Types, RecordType, Record, rdata_type, Hickory}
use dnsliar_rs.Resolver.{SortedRecords, place, sort_loop}

module _ {T : Types} (hickory : Hickory T) (query_name : T.Name) (query_type : RecordType) where
  -- What each record's step keeps, the loop keeps.
  pub sort_loop_induction :
      (P : SortedRecords T → Type 0)
      (step : (cname : T.Name) (r : Record T) (s : SortedRecords T)
          (next : T.Name × SortedRecords T)
        → place hickory query_name query_type (rdata_type r.rdata) cname r s ≡ ok next
        → P s
        → P next.1)
      (rs : List (Record T)) (cname : T.Name) (s : SortedRecords T) {s' : SortedRecords T}
      → sort_loop hickory query_name query_type rs cname s ≡ ok s'
      → P s
      → P s'
  unfolding sort_loop
  sort_loop_induction P step [] cname s e h = subst P (cc) h
  sort_loop_induction P step (r ∷ rs) cname s e h =
      let (next, placed, rest) = and_then-eq-ok _ _ e in
      sort_loop_induction P step rs next.0 next.1 rest (step cname r s next placed h)
