-- ===== src/RedisCtl/Conf/Sets.antt =====
-- The sets of Redis as the tool and the daemon share them, and what a set of two texts is read as.
use dnsliar_rs.Base.{
  ℕ, String, ◌≡◌, refl, sym, ◌∙◌, Bool, true, false, ◌&&◌, ◌||◌, not, List, [], ◌∷◌, ◌⊎◌, inl, inr,
  if◌then◌else◌, Bool-cases, arith,
}
use dnsliar_rs.Base.Text.{str_eq, eq_iff, eq_refl, ◌<>◌}
use text.Mathlib.TextLemmas.{append_assoc, append_cancel_right}
use dnsliar_rs.Exec.{value}
use dnsliar_rs.Dns.{Types}
use dnsliar_rs.Env.{Env}
use dnsliar_rs.RedisCtl.{Connection}
use dnsliar_rs.RedisCtl.Feed.{contains}
use dnsliar_rs.RedisCtl.Conf.{set_key}

abbrev pub distinct : List String → Bool
distinct [] = true
distinct (x ∷ xs) = not (contains xs x) && distinct xs

-- The connection of the tool and the one of the daemon lead to one Redis server, which answers, and
-- which no other client changes: `has` says which texts are in which set of it. SMEMBERS lists
-- a set without repetition, in any order. SADD needs at least one text.
pub record SharedSets {T : Types} (env : Env T) (connection : Connection T.World T.Fault)
    : Type 0 where
  pub has : T.World → String → String → Bool
  pub del_has :
      (key : String) (w : T.World)
      → (w' : T.World) × (connection.del key w ≡ (value tt, w'))
        × ((k m : String) → has w' k m ≡ (if str_eq k key then false else has w k m))
  pub sadd_has :
      (key first : String) (ms : List String) (w : T.World)
      → (n : ℕ) × (w' : T.World) × (connection.sadd key (first ∷ ms) w ≡ (value n, w'))
        × ((k m : String)
            → has w' k m
              ≡ (if str_eq k key then contains (first ∷ ms) m || has w k m else has w k m))
  pub println_has :
      (text k m : String) (w : T.World) → has (connection.println text w) k m ≡ has w k m
  pub sismember_has :
      (key m : String) (w : T.World) → env.redis.sismember key m w ≡ (value (has w key m), w)
  pub smembers_has :
      (key : String) (w : T.World)
      → (l : List String) × (env.redis.smembers key w ≡ (value l, w))
        × (distinct l ≡ true)
        × ((m : String) → contains l m ≡ has w key m)

pub str_eq-true : (a b : String) → str_eq a b ≡ true → a ≡ b
str_eq-true a b e = (eq_iff a b).0 e

-- A text of two is one of them.
either : (x y a : String) → contains (x ∷ y ∷ []) a ≡ true → (x ≡ a) ⊎ (y ≡ a)
either x y a e = elim (Bool-cases (str_eq x a)) [
  | inl b ↦ inl (str_eq-true x a b)
  | inr b ↦ elim (Bool-cases (str_eq y a)) [
    | inl c ↦ inr (str_eq-true y a c)
    | inr c ↦ absurd (false-ne-true (rw (b, c) at e))
  ]
]
  where
    false-ne-true : ◌≡◌ {A = Bool} false true → ⊥
    false-ne-true h = cc

three :
    (x y a b c : String) (rest : List String)
    → (x ≡ a) ⊎ (y ≡ a)
    → (x ≡ b) ⊎ (y ≡ b)
    → (x ≡ c) ⊎ (y ≡ c)
    → distinct (a ∷ b ∷ c ∷ rest) ≡ true
    → ⊥
three x y a b c rest p q r e = ground (arith, eq_iff b a, eq_iff c a, eq_iff c b)

order :
    (x y a b : String)
    → str_eq x y ≡ false
    → distinct (a ∷ b ∷ []) ≡ true
    → (x ≡ a) ⊎ (y ≡ a)
    → (x ≡ b) ⊎ (y ≡ b)
    → (a ∷ b ∷ [] ≡ x ∷ y ∷ []) ⊎ (a ∷ b ∷ [] ≡ y ∷ x ∷ [])
order x y a b ne d (inl p) (inl q) = absurd (ground (arith, eq_iff b a))
order x y a b ne d (inl p) (inr q) = inl (rw (p, q) refl)
order x y a b ne d (inr p) (inl q) = inr (rw (p, q) refl)
order x y a b ne d (inr p) (inr q) = absurd (ground (arith, eq_iff b a))

-- A list without repetition that has the members of a set of two is the two, in some order.
pub two_lem :
    (x y : String) (l : List String)
    → str_eq x y ≡ false
    → distinct l ≡ true
    → ((m : String) → contains l m ≡ contains (x ∷ y ∷ []) m)
    → (l ≡ x ∷ y ∷ []) ⊎ (l ≡ y ∷ x ∷ [])
two_lem x y [] ne d h = absurd (ground (arith, h x, eq_refl x))
two_lem x y (a ∷ []) ne d h =
    absurd (ground (arith, h x, h y, eq_refl x, eq_refl y, eq_iff a x, eq_iff a y, eq_iff x y))
two_lem x y (a ∷ b ∷ []) ne d h =
    order x y a b ne d (either x y a (sym (h a) ∙ ground (arith, eq_refl a)))
      (either x y b (sym (h b) ∙ ground (arith, eq_refl b)))
two_lem x y (a ∷ b ∷ c ∷ rest) ne d h = absurd (
    three x y a b c rest (either x y a (sym (h a) ∙ ground (arith, eq_refl a)))
      (either x y b (sym (h b) ∙ ground (arith, eq_refl b)))
      (either x y c (sym (h c) ∙ ground (arith, eq_refl c))) d)

pub key_lem :
    (kind daemon_id : String) → set_key kind daemon_id ≡ (("DBL;" <> (kind <> ";")) <> daemon_id)
key_lem kind daemon_id = simp append_assoc

-- Different kinds, different keys.
pub kinds_lem :
    (a b daemon_id : String) → str_eq a b ≡ false → str_eq (a <> daemon_id) (b <> daemon_id) ≡ false
kinds_lem a b daemon_id ne = elim (Bool-cases (str_eq (a <> daemon_id) (b <> daemon_id))) [
  | inr e ↦ e
  | inl e ↦
      let same = append_cancel_right a b daemon_id (str_eq-true _ _ e) in
      absurd (true-ne-false (sym ((eq_iff a b).1 same) ∙ ne))
]
  where
    true-ne-false : ◌≡◌ {A = Bool} true false → ⊥
    true-ne-false h = cc
