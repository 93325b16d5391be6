-- ===== src/Exec.antt =====
-- A call of a Rust function that works on some state: it returns a value, returns an error of
-- `DnsBlrsResult`, or panics. The state comes back in every case, since what was written stays.

pub mod Safe
use dnsliar_rs.Base.{◌≡◌, refl, Option, none, some, List, [], ◌∷◌}
use dnsliar_rs.Errors.{DnsBlrsError}

pub data Outcome (Fault : Type 0) (A : Type 0) : Type 0 where
  ok : A → Outcome Fault A
  err : DnsBlrsError Fault → Outcome Fault A
  panic : Outcome Fault A

abbrev pub Exec : Type 0 → Type 0 → Type 0 → Type 0
Exec Fault S A = S → Outcome Fault A × S

-- A call of an external crate on the outside world: its result, or its error value.
pub data Reply (Fault : Type 0) (A : Type 0) : Type 0 where
  value : A → Reply Fault A
  fault : Fault → Reply Fault A

abbrev pub Call : Type 0 → Type 0 → Type 0 → Type 0
Call World Fault A = World → Reply Fault A × World

module _ {Fault S A : Type 0} where
  unfoldable pub pure : A → Exec Fault S A
  pure a s = (ok a, s)

  unfoldable pub raise : DnsBlrsError Fault → Exec Fault S A
  raise e s = (err e, s)

  -- `unreachable!`, `expect` on `None`, an index out of range
  unfoldable pub crash : Exec Fault S A
  crash s = (panic, s)

  unfoldable pub lift : Outcome Fault A → Exec Fault S A
  lift r s = (r, s)

module _ {Fault A : Type 0} where
  abbrev pub to_outcome : (Fault → DnsBlrsError Fault) → Reply Fault A → Outcome Fault A
  to_outcome from (value a) = ok a
  to_outcome from (fault f) = err (from f)

  -- `call.await?`: an error value goes through its `From` instance.
  unfoldable pub await :
      {World : Type 0} → (Fault → DnsBlrsError Fault) → Call World Fault A → Exec Fault World A
  await from call w = (to_outcome from (call w).0, (call w).1)

module _ {Fault S A B : Type 0} where
  abbrev pub continue : Outcome Fault A → (A → Exec Fault S B) → Exec Fault S B
  continue (ok a) f s = f a s
  continue (err e) f s = (err e, s)
  continue panic f s = (panic, s)

  infixl 5 ◌>>=◌ ◌>>◌
  -- opening this opens the actions above too
  unfoldable pub ◌>>=◌ : Exec Fault S A → (A → Exec Fault S B) → Exec Fault S B
  unfolding pure raise crash lift await
  ◌>>=◌ m f s = continue (m s).0 f (m s).1

  abbrev pub ◌>>◌ : Exec Fault S A → Exec Fault S B → Exec Fault S B
  m >> n = m >>= λ _. n

module _ {Fault A B : Type 0} where
  abbrev pub and_then : Outcome Fault A → (A → Outcome Fault B) → Outcome Fault B
  and_then (ok a) f = f a
  and_then (err e) f = err e
  and_then panic f = panic

  pub lift-pure :
      {S : Type 0} (r : Outcome Fault A) (f : A → B) (s : S)
      → (lift r >>= λ a. pure (f a)) s ≡ (and_then r (λ a. ok (f a)), s)
  unfolding ◌>>=◌
  lift-pure (ok a) f s = refl
  lift-pure (err e) f s = refl
  lift-pure panic f s = refl

  pub and_then-eq-ok :
      (m : Outcome Fault A) (f : A → Outcome Fault B) {b : B}
      → and_then m f ≡ ok b
      → (a : A) × (m ≡ ok a) × (f a ≡ ok b)
  and_then-eq-ok (ok a) f h = (a, refl, h)
  and_then-eq-ok (err e) f h = cc
  and_then-eq-ok panic f h = cc

module _ {Fault A : Type 0} where
  pub ok-injective : {a b : A} → ◌≡◌ {A = Outcome Fault A} (ok a) (ok b) → a ≡ b
  ok-injective h = cc

-- A `for` loop whose body returns from the function (`some`) or continues (`none`).
module _ {Fault S A B : Type 0} where
  unfoldable pub first_some : (A → Exec Fault S (Option B)) → List A → Exec Fault S (Option B)
  first_some body [] = pure none
  first_some body (x ∷ xs) =
      body x >>= λ found. elim found [ none ↦ first_some body xs | some b ↦ pure (some b) ]
