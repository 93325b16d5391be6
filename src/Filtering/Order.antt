-- ===== src/Filtering/Order.antt =====
-- The order in which the suffixes of a name are tried.
use mathlib.Core.List.{Perm, perm_middle}
use mathlib.Core.List.Perm
use dnsliar_rs.Base.{
  ℕ, zero, suc, ◌+◌, ◌-◌, ◌%◌, ◌≤◌, ◌≡◌, ap, List, [], ◌∷◌, ◌++◌, All, All-weaken, arith,
}
use dnsliar_rs.Filtering.{up_from, range_inclusive, filter_5, order}

-- The five indices of `filter_5` in front of any others.
filter_5-perm : (xs : List ℕ) → Perm (filter_5 ++ xs) (1 ∷ 2 ∷ 3 ∷ 4 ∷ 5 ∷ xs)
filter_5-perm xs =
    Perm.trans (perm_middle (3 ∷ 4 ∷ 2 ∷ 5 ∷ []) xs)
      (Perm.cons 1 (perm_middle (3 ∷ 4 ∷ []) (5 ∷ xs)))

range_lem : (n : ℕ) → n ≤ 255 → range_inclusive 6 (n % 256) ≡ up_from 6 (n - 5)
unfolding range_inclusive
range_lem n h = let e : suc (n % 256) - 6 ≡ n - 5 = omega arith in ap (up_from 6) e

order_large : (n : ℕ) → 6 ≤ n → n ≤ 255 → order n ≡ filter_5 ++ up_from 6 (n - 5)
unfolding order
order_large n h k = rw (range_lem n k) (ground arith)

-- For a name of 1 to 255 labels the order is a rearrangement of 1, 2, …, n.
pub order-perm : (n : ℕ) → 1 ≤ n → n ≤ 255 → Perm (order n) (up_from 1 n)
unfolding order
order-perm zero h k = absurd (omega arith)
order-perm (suc zero) h k = Perm.refl _
order-perm (suc (suc zero)) h k = Perm.swap 1 2 []
order-perm (suc (suc (suc zero))) h k =
    Perm.trans (perm_middle (3 ∷ 2 ∷ []) []) (Perm.cons 1 (Perm.swap 2 3 []))
order-perm (suc (suc (suc (suc zero)))) h k =
    Perm.trans (perm_middle (3 ∷ 4 ∷ 2 ∷ []) []) (Perm.cons 1 (perm_middle (3 ∷ 4 ∷ []) []))
order-perm (suc (suc (suc (suc (suc zero))))) h k = filter_5-perm []
order-perm (suc (suc (suc (suc (suc (suc n)))))) h k =
    let e : suc (suc (suc (suc (suc (suc n))))) - 5 ≡ suc n = omega arith in
    rw (order_large (suc (suc (suc (suc (suc (suc n)))))) (omega arith) k, e)
      (filter_5-perm (up_from 6 (suc n)))

abbrev pub Within : ℕ → ℕ → ℕ → Type 0
Within lo hi i = (lo ≤ i) × (i ≤ hi)

up_from_bounds : (lo count hi : ℕ) → lo + count ≤ suc hi → All (Within lo hi) (up_from lo count)
unfolding up_from
up_from_bounds lo zero hi h = tt
up_from_bounds lo (suc count) hi h = (
  omega arith,
  All-weaken _ _ (λ i p. (omega arith, p.1)) (up_from (suc lo) count)
      (up_from_bounds (suc lo) count hi (omega arith)),
)

-- For a name of 1 to 255 labels, no index in the order is 0 or above the number of labels, so that
-- the slice of the name is in range.
pub order_bounds : (n : ℕ) → 1 ≤ n → n ≤ 255 → All (Within 1 n) (order n)
order_bounds zero h k = absurd (omega arith)
order_bounds (suc zero) h k = unfold order in omega arith
order_bounds (suc (suc zero)) h k = unfold order in omega arith
order_bounds (suc (suc (suc zero))) h k = unfold order in omega arith
order_bounds (suc (suc (suc (suc zero)))) h k = unfold order in omega arith
order_bounds (suc (suc (suc (suc (suc zero))))) h k = unfold order in omega arith
order_bounds (suc (suc (suc (suc (suc (suc n)))))) h k =
    let m : ℕ = suc (suc (suc (suc (suc (suc n))))) in
    rw (order_large m (omega arith) k) (
      omega arith,
      (
        omega arith,
        (
          omega arith,
          (
            omega arith,
            (
              omega arith,
              All-weaken _ _ (λ i p. (omega arith, p.1)) (up_from 6 (m - 5))
                  (up_from_bounds 6 (m - 5) m (omega arith)),
            ),
          ),
        ),
      ),
    )
