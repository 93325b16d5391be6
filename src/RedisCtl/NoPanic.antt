-- ===== src/RedisCtl/NoPanic.antt =====
-- Functions of the tool that do not panic.
use dnsliar_rs.Base.{◌≡◌, refl, String, Bool, true, false, if◌then◌else◌}
use dnsliar_rs.Exec.{Reply, value, fault, Call}
use dnsliar_rs.RedisCtl.{
  Ended, done, failed, panicked, Tool, return, end, ask, resume, ended, ◌>>=◌, Connection, print,
  get_datetime,
}

abbrev pub IsEnded : {Fault A : Type 0} → Ended Fault A → Type 0
IsEnded panicked = ⊥
IsEnded _ = Unit

pub record NoPanic {World Fault A : Type 0} (m : Tool World Fault A) : Type 0 where
  pub at : (w : World) → IsEnded (m w).0

module _ {World Fault A : Type 0} where
  pub NoPanic-return : (a : A) → NoPanic {World = World} {Fault = Fault} (return a)
  unfolding return
  NoPanic-return a = record { at = λ w. tt }

  pub NoPanic-end : (r : Ended Fault A) → IsEnded r → NoPanic {World = World} (end r)
  unfolding end
  NoPanic-end r h = record { at = λ w. h }

  pub NoPanic-ask : (call : Call World Fault A) → NoPanic (ask call)
  unfolding ask
  NoPanic-ask call = record { at = λ w. go (call w).0 }
    where
      go : (r : Reply Fault A) → IsEnded (ended r)
      go (value a) = tt
      go (fault f) = tt

  pub NoPanic-if :
      (b : Bool) (m n : Tool World Fault A) → NoPanic m → NoPanic n → NoPanic (if b then m else n)
  NoPanic-if true m n p q = p
  NoPanic-if false m n p q = q

module _ {World Fault A B : Type 0} where
  pub NoPanic-bind :
      (m : Tool World Fault A) (f : A → Tool World Fault B)
      → NoPanic m
      → ((a : A) → NoPanic (f a))
      → NoPanic (m >>= f)
  unfolding ◌>>=◌
  NoPanic-bind m f hm hf = record { at = λ w. go (m w).0 (m w).1 (hm.at w) }
    where
      go : (r : Ended Fault A) (w : World) → IsEnded r → IsEnded (resume r f w).0
      go (done a) w h = (hf a).at w
      go (failed e) w h = tt
      go panicked w h = elim h [ ]

  -- The rest may use what the first part returns.
  pub NoPanic-bind_of :
      (m : Tool World Fault A) (f : A → Tool World Fault B)
      → NoPanic m
      → ((w : World) (a : A) → (m w).0 ≡ done a → NoPanic (f a))
      → NoPanic (m >>= f)
  unfolding ◌>>=◌
  NoPanic-bind_of m f hm hf = record { at = λ w. go (m w).0 (m w).1 (hm.at w) (hf w) }
    where
      go :
          (r : Ended Fault A) (w : World)
          → IsEnded r
          → ((a : A) → r ≡ done a → NoPanic (f a))
          → IsEnded (resume r f w).0
      go (done a) w h k = (k a refl).at w
      go (failed e) w h k = tt
      go panicked w h k = elim h [ ]

module _ {World Fault : Type 0} (connection : Connection World Fault) where
  pub NoPanic-print : (text : String) → NoPanic (print connection text)
  unfolding print
  NoPanic-print text = record { at = λ w. tt }

  pub NoPanic-get_datetime : NoPanic (get_datetime connection)
  unfolding get_datetime
  NoPanic-get_datetime = record { at = λ w. tt }

pub ruleset no_panic =
    (NoPanic-return, NoPanic-ask, NoPanic-if, NoPanic-bind, NoPanic-print, NoPanic-get_datetime)
