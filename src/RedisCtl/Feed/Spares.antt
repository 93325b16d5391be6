-- ===== src/RedisCtl/Feed/Spares.antt =====
-- Functions of the tool that leave one hash of Redis as it is, where it is there.
use dnsliar_rs.Base.{
  ℕ, String, ◌≡◌, refl, ◌∙◌, Bool, true, false, Option, some, List, if◌then◌else◌,
}
use dnsliar_rs.Base.Text.{str_eq}
use dnsliar_rs.Exec.{Call}
use dnsliar_rs.Filtering.{rule_key}
use dnsliar_rs.RedisCtl.{
  Ended, done, failed, panicked, Tool, return, ask, resume, ◌>>=◌, Connection,
}
use dnsliar_rs.RedisCtl.Feed.{Outside, contains}
use dnsliar_rs.RedisCtl.Feed.Scan.{Scans}

-- What the loop and the writes of `auto` rely on: `hash` is a hash of Redis by its key. Printing,
-- reading files and downloading leave the hashes, and SCAN too; HSET works on the hash of its key;
-- and the replies of a whole iteration of SCAN, from the cursor 0, hold each rule that was there
-- when it began.
pub record Hashes {World Fault : Type 0} (connection : Connection World Fault)
    (outside : Outside World Fault) : Type 0 where
  pub hash : World → String → String → Option String
  pub println_hash :
      (text key : String) (w : World) → hash (connection.println text w) key ≡ hash w key
  pub read_hash :
      (path key : String) (w : World) → hash (outside.read_to_string path w).1 key ≡ hash w key
  pub get_hash : (url key : String) (w : World) → hash (outside.get url w).1 key ≡ hash w key
  pub scan_hash :
      (cursor : ℕ) (key : String) (w : World) → hash (connection.scan cursor w).1 key ≡ hash w key
  pub hset_multiple_hash :
      (key : String) (pairs : List (String × String)) (other : String) (w : World)
      → str_eq key other ≡ false
      → hash (connection.hset_multiple key pairs w).1 other ≡ hash w other
  pub scan_complete :
      (n : ℕ) (keys : List String) (w w' : World)
      → Scans connection 0 w n keys w'
      → (filter domain field val : String) → hash w (rule_key filter domain) field ≡ some val
      → contains keys (rule_key filter domain) ≡ true

module _ {World Fault : Type 0} (hash : World → String → String → Option String)
    (key field val : String) where
  pub record Spares {A : Type 0} (m : Tool World Fault A) : Type 0 where
    pub at : (w : World) → hash w key field ≡ some val → hash (m w).1 key ≡ hash w key

  pub Spares-return : {A : Type 0} (a : A) → Spares (return a)
  unfolding return
  Spares-return a = record { at = λ w h. refl }

  pub Spares-ask :
      {A : Type 0} (call : Call World Fault A)
      → ((w : World) → hash (call w).1 key ≡ hash w key)
      → Spares (ask call)
  unfolding ask
  Spares-ask call e = record { at = λ w h. e w }

  pub Spares-if :
      {A : Type 0} (b : Bool) (m n : Tool World Fault A)
      → Spares m
      → Spares n
      → Spares (if b then m else n)
  Spares-if true m n p q = p
  Spares-if false m n p q = q

  -- The rest may use what the first part returns, and from where.
  pub Spares-bind_of :
      {A B : Type 0} (m : Tool World Fault A) (f : A → Tool World Fault B)
      → Spares m
      → ((w : World) → hash w key field ≡ some val → (a : A) → (m w).0 ≡ done a → Spares (f a))
      → Spares (m >>= f)
  unfolding ◌>>=◌
  Spares-bind_of {A = A} m f hm hf = record {
    at = λ w h. go w h (m w).0 (m w).1 (hm.at w h) (hf w h);
  }
    where
      go :
          (w : World)
          → hash w key field ≡ some val
          → (r : Ended Fault A) (w' : World) → hash w' key ≡ hash w key
          → ((a : A) → r ≡ done a → Spares (f a))
          → hash (resume r f w').1 key ≡ hash w key
      go w h (done a) w' e k = (k a refl).at w' (rw e h) ∙ e
      go w h (failed err) w' e k = e
      go w h panicked w' e k = e

  pub Spares-bind :
      {A B : Type 0} (m : Tool World Fault A) (f : A → Tool World Fault B)
      → Spares m
      → ((a : A) → Spares (f a))
      → Spares (m >>= f)
  Spares-bind m f hm hf = Spares-bind_of m f hm (λ w h a e. hf a)
