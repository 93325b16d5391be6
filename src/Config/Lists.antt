-- ===== src/Config/Lists.antt =====
-- The lists of forwarders and binds that are read from Redis.
use dnsliar_rs.Base.{
  ℕ, suc, String, ◌≡◌, ◌≢◌, refl, Bool, true, false, ◌&&◌, ◌||◌, not, Option, none, some, List, [],
  ◌∷◌, length, All, Bool-cases, inl, inr, arith, ◌==◌, if◌then◌else◌,
}
use dnsliar_rs.Base.Text.{str_eq, to_lowercase}
use dnsliar_rs.Config.{
  cons_some, filter_map, at_least_one, config_forwarders, parse_parts, parse_bind, parse_binds,
  with_proto,
}

-- `none` in place of an empty list.
abbrev pub nonempty : {A : Type 0} → List A → Option (List A)
nonempty [] = none
nonempty (x ∷ xs) = some (x ∷ xs)

module _ {A B : Type 0} (f : A → Option B) where
  at_least_one-nonempty : (n : ℕ) (ys : List B) → n ≢ 0 → at_least_one n ys ≡ nonempty ys
  unfolding at_least_one
  at_least_one-nonempty n [] h = ground arith
  at_least_one-nonempty n (y ∷ ys) h = ground arith

  kept :
      (xs : List A)
      → (if length xs == 0 then none else at_least_one (length xs) (filter_map f xs))
        ≡ nonempty (filter_map f xs)
  unfolding filter_map
  kept [] = refl
  kept (x ∷ xs) =
      let e : (suc (length xs) == 0) ≡ false = ground arith in
      rw e (
        at_least_one-nonempty (suc (length xs)) (cons_some (f x) (filter_map f xs))
          (λ p. omega arith))

  All-filter_map :
      (P : B → Type 0)
      → ((x : A) (y : B) → f x ≡ some y → P y)
      → (xs : List A) → All P (filter_map f xs)
  unfolding filter_map
  All-filter_map P h [] = tt
  All-filter_map P h (x ∷ xs) = go (f x) (h x) (All-filter_map P h xs)
    where
      go :
          (o : Option B)
          → ((y : B) → o ≡ some y → P y)
          → All P (filter_map f xs)
          → All P (cons_some o (filter_map f xs))
      go none k ih = ih
      go (some y) k ih = (k y refl, ih)

some-injective : {A : Type 0} {a b : A} → some a ≡ some b → a ≡ b
some-injective h = cc

none-ne-some : {A : Type 0} {b : A} → ◌≡◌ {A = Option A} none (some b) → ⊥
none-ne-some h = cc

-- The protocols that `setup_binds` knows.
abbrev pub IsKnown : {SocketAddr : Type 0} → String × SocketAddr → Type 0
IsKnown (proto, addr) = (str_eq proto "udp" || str_eq proto "tcp") ≡ true

or_of_and : (t u : Bool) → (not t && not u) ≡ false → (u || t) ≡ true
or_of_and t u h = ground arith

module _ {SocketAddr : Type 0} (parse_socket : String → Option SocketAddr) where
  -- `config_forwarders` keeps the valid forwarders, in their order, and fails when there is none.
  pub config_forwarders-nonempty :
      (recvd : List String)
      → config_forwarders parse_socket recvd ≡ nonempty (filter_map parse_socket recvd)
  unfolding config_forwarders
  config_forwarders-nonempty recvd = kept parse_socket recvd

  with_proto-IsKnown :
      (proto : String) (o : Option SocketAddr) (b : String × SocketAddr)
      → (str_eq proto "udp" || str_eq proto "tcp") ≡ true
      → with_proto parse_socket proto o ≡ some b
      → IsKnown b
  with_proto-IsKnown proto none b known h = cc
  with_proto-IsKnown proto (some addr) b known h = rw (← some-injective h) known

  parse_parts-IsKnown :
      (parts : List String) (b : String × SocketAddr)
      → parse_parts parse_socket parts ≡ some b
      → IsKnown b
  unfolding parse_parts
  parse_parts-IsKnown [] b h = cc
  parse_parts-IsKnown (proto ∷ []) b h = cc
  parse_parts-IsKnown (proto ∷ socket ∷ rest) b h =
      elim (Bool-cases
        (not (str_eq (to_lowercase proto) "tcp") && not (str_eq (to_lowercase proto) "udp"))) [
          | inl e ↦ absurd (none-ne-some (rw e at h))
          | inr e ↦
              with_proto-IsKnown (to_lowercase proto) (parse_socket socket) b (or_of_and _ _ e)
                (rw e at h)
        ]

  -- `parse_binds` keeps the valid binds, in their order, and fails when there is none; each bind that
  -- it keeps has one of the two protocols that `setup_binds` knows.
  pub parse_binds-nonempty :
      (recvd : List String)
      → (parse_binds parse_socket recvd ≡ nonempty (filter_map (parse_bind parse_socket) recvd))
        × All IsKnown (filter_map (parse_bind parse_socket) recvd)
  unfolding parse_binds
  parse_binds-nonempty recvd = (
    kept (parse_bind parse_socket) recvd,
    All-filter_map (parse_bind parse_socket) IsKnown
        (λ bind b h. parse_parts-IsKnown _ b (unfold parse_bind in h)) recvd,
  )
