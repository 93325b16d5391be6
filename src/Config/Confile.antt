-- ===== src/Config/Confile.antt =====
-- `read_confile` of dnsblrsd/src/config.rs. The file system and serde_json are arguments.
use dnsliar_rs.Base.{ℕ, String}
use dnsliar_rs.Exec.{Reply, value, fault, Call}

pub record Confile : Type 0 where
  pub daemon_id : String
  pub redis_address : String

-- A function that returns, or leaves the process with a code.
pub data Exits (A : Type 0) : Type 0 where
  returned : A → Exits A
  exited : ℕ → Exits A

module _ {World Fault : Type 0} (read_to_string : String → Call World Fault String)
    (parse_confile : String → Reply Fault Confile) where
  abbrev pub with_confile : Reply Fault Confile → Exits (String × String)
  with_confile (fault err) = exited 78
  with_confile (value confile) = returned (confile.daemon_id, confile.redis_address)

  abbrev pub with_data : Reply Fault String → Exits (String × String)
  with_data (fault err) = exited 78
  with_data (value text) = with_confile (parse_confile text)

  unfoldable pub read_confile : String → World → Exits (String × String) × World
  read_confile file_name w = let (text, w') = read_to_string file_name w in (with_data text, w')
