-- ===== src/RedisCtl.antt =====
-- redis-ctl/: the command line tool. What its functions are given: a connection to Redis, the clock
-- and the output, and the texts that `format!` makes of numbers. A function of the tool returns,
-- stops on an error of Redis, or panics; the world keeps what was done.
pub mod NoPanic
pub mod Rules
pub mod Conf
pub mod Stats
pub mod Feed
pub mod Main
use dnsliar_rs.Base.{ℕ, String, Bool, List}
use dnsliar_rs.Base.Text.{◌<>◌}
use dnsliar_rs.Net.{IpText}
use dnsliar_rs.Exec.{Reply, value, fault, Call}

-- `RedisResult`, or a panic.
pub data Ended (Fault A : Type 0) : Type 0 where
  done : A → Ended Fault A
  failed : Fault → Ended Fault A
  panicked : Ended Fault A

pub data ExitCode : Type 0 where
  success : ExitCode
  -- `ExitCode::from`
  code : ℕ → ExitCode

abbrev pub Tool : Type 0 → Type 0 → Type 0 → Type 0
Tool World Fault A = World → Ended Fault A × World

abbrev pub ended : {Fault A : Type 0} → Reply Fault A → Ended Fault A
ended (value a) = done a
ended (fault f) = failed f

module _ {World Fault A : Type 0} where
  unfoldable pub return : A → Tool World Fault A
  return a w = (done a, w)

  unfoldable pub end : Ended Fault A → Tool World Fault A
  end r w = (r, w)

  -- `call?`
  unfoldable pub ask : Call World Fault A → Tool World Fault A
  ask call w = let (reply, w') = call w in (ended reply, w')

module _ {World Fault A B : Type 0} where
  abbrev pub resume : Ended Fault A → (A → Tool World Fault B) → Tool World Fault B
  resume (done a) f w = f a w
  resume (failed e) f w = (failed e, w)
  resume panicked f w = (panicked, w)

  infixl 5 ◌>>=◌ ◌>>◌
  unfoldable pub ◌>>=◌ : Tool World Fault A → (A → Tool World Fault B) → Tool World Fault B
  unfolding return end ask
  ◌>>=◌ m f w = let (r, w') = m w in resume r f w'

  abbrev pub ◌>>◌ : Tool World Fault A → Tool World Fault B → Tool World Fault B
  m >> n = m >>= λ _. n

pub record Connection (World Fault : Type 0) : Type 0 where
  -- the keys that match a pattern
  pub scan_match : String → Call World Fault (List String)
  -- `hset` of one field: how many fields are new
  pub hset : String → String → String → Call World Fault ℕ
  -- a command by its name, its key and its further arguments, the reply read as a `bool`
  pub command : String → String → List String → Call World Fault Bool
  pub hgetall : String → Call World Fault String
  pub smembers : String → Call World Fault (List String)
  -- `sadd` and `srem` of some members: how many were new, or were there
  pub sadd : String → List String → Call World Fault ℕ
  pub srem : String → List String → Call World Fault ℕ
  -- `del` of one key, its reply read as `()`, and of several, read as their number
  pub del : String → Call World Fault (Unit {0})
  pub del_keys : List String → Call World Fault ℕ
  -- `scan` of the rules from a cursor: the next cursor, and some keys
  pub scan : ℕ → Call World Fault (ℕ × List String)
  -- `hset_multiple` of pairs, its reply read as a `bool`
  pub hset_multiple : String → List (String × String) → Call World Fault Bool
  -- `Utc::now()`: the year, the month and the day
  pub now : World → ℕ × ℕ × ℕ
  -- `println!`, where standard output can be written; it panics where it cannot
  pub println : String → World → World
  -- `{}`, `{:4}`, `{:02}` of a number, and `{:?}` of a text
  pub show_usize : ℕ → String
  pub show_4 : ℕ → String
  pub show_02 : ℕ → String
  pub show_debug : String → String
  -- `{:#?}` of a list
  pub show_list : List String → String
  -- `{}` of an error of Redis
  pub show_fault : Fault → String

module _ {World Fault : Type 0} (connection : Connection World Fault) where
  unfoldable pub print : String → Tool World Fault (Unit {0})
  print text w = (done tt, connection.println text w)

  -- redis-ctl/src/modules/get_datetime.rs
  unfoldable pub get_datetime : Tool World Fault (String × String × String)
  get_datetime w =
      let (year, month, day) = connection.now w in
      (done (connection.show_4 year, connection.show_02 month, connection.show_02 day), w)
