-- ===== src/Filtering/Candidates.antt =====
-- The suffixes of a name among the keys that are tried.
use mathlib.Core.List.{
  Mem, Mem-prop, not-mem-nil, mem-cons, mem-append, mem-append_left, mem-map_of_mem,
}
use mathlib.Core.List.Perm
use mathlib.Core.Logic.Or
use native.Mathlib.Decide.{ℕ_discrete}
use dnsliar_rs.Base.{ℕ, zero, suc, ◌+◌, ◌≤◌, ◌<◌, String, sym, List, [], ◌∷◌, arith, length}
use dnsliar_rs.Filtering.{rule_key, order, up_from}
use dnsliar_rs.Filtering.Order.{Within, order-perm}
use dnsliar_rs.Filtering.Rules.{suffix, candidates}

mem-up_from : (lo count k : ℕ) → lo ≤ k → k < lo + count → Mem k (up_from lo count)
unfolding up_from
mem-up_from lo zero k h l = absurd (omega arith)
mem-up_from lo (suc count) k h l = elim (ℕ_discrete lo k) [
  | yes e ↦ mem-cons.1 (Or.inl (sym e))
  | no n ↦ mem-cons.1 (Or.inr (mem-up_from (suc lo) count k (omega arith) (omega arith)))
]

module _ (names filters : List String) where
  candidates-mem_of :
      (indices : List ℕ) (filter : String) (k : ℕ)
      → Mem filter filters
      → Mem k indices
      → Mem (rule_key filter (suffix names k)) (candidates names filters indices)
  candidates-mem_of [] f k mf mk = absurd (not-mem-nil mk)
  candidates-mem_of (i ∷ is) f k mf mk =
      Or.elim Mem-prop (mem-cons.0 mk)
        (λ e.
          mem-append_left (candidates names filters is)
            (rw e (mem-map_of_mem (λ filter. rule_key filter (suffix names i)) mf)))
        (λ m. mem-append.1 (Or.inr (candidates-mem_of is f k mf m)))

  -- Each suffix of 1 to n labels of a name of n labels, at most 255, is tried under each filter.
  pub candidates-mem :
      (filter : String) (k : ℕ)
      → 1 ≤ length names
      → length names ≤ 255
      → Mem filter filters
      → Within 1 (length names) k
      → Mem (rule_key filter (suffix names k)) (candidates names filters (order (length names)))
  candidates-mem f k one short mf w = candidates-mem_of (order (length names)) f k mf (
      (Perm.mem_iff (order-perm (length names) one short)).1
        (mem-up_from 1 (length names) k w.0 (omega arith)))
