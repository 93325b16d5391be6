-- ===== src/Exec/Safe.antt =====
-- Calls that end as `handle_request` expects: no panic, and no error of the kind that only the
-- start of the daemon returns.
use dnsliar_rs.Exec
use dnsliar_rs.Base.{
  ◌≡◌, ◌≢◌, refl, Bool, true, false, Option, none, some, List, [], ◌∷◌, All, if◌then◌else◌,
}
use dnsliar_rs.Errors.{
  DnsBlrsError, ExternCrateErrorKind, redis, system_time, socket_binding, extern_crate_error,
  from_redis_error, from_system_time_error,
}
use dnsliar_rs.Exec.{
  Outcome, ok, err, panic, Exec, Reply, value, fault, Call, pure, raise, lift, await, ◌>>=◌,
  first_some,
}

abbrev pub IsHandled : {F A : Type 0} → Outcome F A → Type 0
IsHandled (ok a) = Unit
IsHandled (err e) = e.kind ≢ socket_binding
IsHandled panic = ⊥

pub record Safe {F S A : Type 0} (m : Exec F S A) : Type 0 where
  pub at : (s : S) → IsHandled (m s).0

module _ {F S A : Type 0} where
  pub Safe-pure : (a : A) → Safe {F = F} {S = S} (pure a)
  unfolding pure
  Safe-pure a = record { at = λ s. tt }

  pub Safe-raise : (e : DnsBlrsError F) → e.kind ≢ socket_binding → Safe {S = S} {A = A} (raise e)
  unfolding raise
  Safe-raise e h = record { at = λ s. h }

  pub Safe-lift : (r : Outcome F A) → IsHandled r → Safe {S = S} (lift r)
  unfolding lift
  Safe-lift r h = record { at = λ s. h }

  pub Safe-if :
      (b : Bool) (m n : Exec F S A)
      → (b ≡ true → Safe m)
      → (b ≡ false → Safe n)
      → Safe (if b then m else n)
  Safe-if true m n p q = p refl
  Safe-if false m n p q = q refl

  pub Safe-await :
      (from : F → DnsBlrsError F) (call : Call S F A)
      → ((f : F) → (from f).kind ≢ socket_binding)
      → Safe (await from call)
  unfolding await
  Safe-await from call h = record { at = λ s. go (call s).0 }
    where
      go : (r : Reply F A) → IsHandled (Exec.to_outcome from r)
      go (value a) = tt
      go (fault f) = h f

module _ {F S A B : Type 0} where
  pub Safe-bind :
      (m : Exec F S A) (f : A → Exec F S B) → Safe m → ((a : A) → Safe (f a)) → Safe (m >>= f)
  unfolding ◌>>=◌
  Safe-bind m f hm hf = record { at = λ s. go (m s).0 (m s).1 (hm.at s) }
    where
      go : (r : Outcome F A) (s : S) → IsHandled r → IsHandled (Exec.continue r f s).0
      go (ok a) s h = (hf a).at s
      go (err e) s h = h
      go panic s h = h

  -- The rest may use what the first call returns.
  pub Safe-bind_of :
      (m : Exec F S A) (f : A → Exec F S B)
      → Safe m
      → ((s : S) (a : A) → (m s).0 ≡ ok a → Safe (f a))
      → Safe (m >>= f)
  unfolding ◌>>=◌
  Safe-bind_of m f hm hf = record { at = λ s. go (m s).0 (m s).1 (hm.at s) (hf s) }
    where
      go :
          (r : Outcome F A) (s : S)
          → IsHandled r
          → ((a : A) → r ≡ ok a → Safe (f a))
          → IsHandled (Exec.continue r f s).0
      go (ok a) s h k = (k a refl).at s
      go (err e) s h k = h
      go panic s h k = h

module _ {F S A B : Type 0} where
  -- A search that returns early is safe if each round is.
  pub Safe-first_some :
      (body : A → Exec F S (Option B)) (xs : List A)
      → All (λ x. Safe (body x)) xs
      → Safe (first_some body xs)
  unfolding first_some
  Safe-first_some body [] h = Safe-pure none
  Safe-first_some body (x ∷ xs) h =
      Safe-bind (body x) _ h.0
        (elim [ none ↦ Safe-first_some body xs h.1 | some b ↦ Safe-pure (some b) ])

pub extern-ne : {F : Type 0} (e : ExternCrateErrorKind F) → extern_crate_error e ≢ socket_binding
extern-ne e p = cc

module _ {F S A : Type 0} (call : Call S F A) where
  pub Safe-redis : Safe (await from_redis_error call)
  Safe-redis = Safe-await _ call (λ f. extern-ne (redis f))

  pub Safe-time : Safe (await from_system_time_error call)
  Safe-time = Safe-await _ call (λ f. extern-ne (system_time f))
