-- ===== src/Tests/Log.antt =====
-- A Redis of hashes only, as the list of the fields that were written, the last one first.
use dnsliar_rs.Base.{
  ℕ, String, ◌≡◌, refl, ◌∙◌, fun_ext, Bool, true, false, ◌&&◌, Option, none, some, List, [], ◌∷◌,
  if◌then◌else◌, Bool-cases, inl, inr, ◌==◌,
}
use dnsliar_rs.Base.Text.{str_eq, eq_refl}
use dnsliar_rs.Exec.{value}
use dnsliar_rs.Filtering.{rule_key}
use dnsliar_rs.Filtering.Rules.{or_else}
use dnsliar_rs.RedisCtl.{Connection}
use dnsliar_rs.RedisCtl.Rules.Switch.{Flags}
use dnsliar_rs.RedisCtl.Feed.{Outside, response, contains}
use dnsliar_rs.RedisCtl.Feed.Scan.{Scans, last, next}
use dnsliar_rs.RedisCtl.Feed.Spares.{Hashes}
use dnsliar_rs.RedisCtl.Feed.Named.{last_of, IsThere, Writes}

-- The key, the field and the value.
abbrev pub Log : Type 0
Log = List (String × String × String)

abbrev pub fields : Log → String → String → Option String
fields [] key field = none
fields ((k, f, v) ∷ log) key field =
    if str_eq k key && str_eq f field then some v else fields log key field

abbrev pub is_some : Option String → Bool
is_some none = false
is_some (some val) = true

abbrev pub keys_of : Log → List String
keys_of [] = []
keys_of ((k, f, v) ∷ log) = k ∷ keys_of log

abbrev push : String → List (String × String) → Log → Log
push key [] log = log
push key ((f, v) ∷ pairs) log = push key pairs ((key, f, v) ∷ log)

abbrev pub log_connection : Connection Log ℕ
log_connection = record {
  scan_match = λ pattern w. (value (keys_of w), w);
  hset = λ key field val w.
      (value (if is_some (fields w key field) then 0 else 1), (key, field, val) ∷ w);
  command = λ name key args w. (value false, w);
  hgetall = λ key w. (value "", w);
  smembers = λ key w. (value [], w);
  sadd = λ key members w. (value 0, w);
  srem = λ key members w. (value 0, w);
  del = λ key w. (value tt, w);
  del_keys = λ keys w. (value 0, w);
  scan = λ cursor w. (value (0, keys_of w), w);
  hset_multiple = λ key pairs w. (value true, push key pairs w);
  now = λ w. (2024, 1, 1);
  println = λ text w. w;
  show_usize = λ n. "0";
  show_4 = λ n. "2024";
  show_02 = λ n. "01";
  show_debug = λ s. s;
  show_list = λ l. "";
  show_fault = λ f. "";
}

abbrev pub log_outside : Outside Log ℕ
log_outside = record {
  read_to_string = λ path w. (value "", w);
  parse_sources = λ text.
      value
        (record { name = "lists"; lists = record { filter = "ads"; urls = "url" ∷ [] } ∷ [] } ∷ []);
  client_new = λ w. true;
  get = λ url w. (response true "200" (value "example.com\nexample.org\n"), w);
  open_lines = λ path w. (value [], w);
}

pub contains-keys_of :
    (log : Log) (key field val : String)
    → fields log key field ≡ some val
    → contains (keys_of log) key ≡ true
contains-keys_of [] key field val e = cc
contains-keys_of ((k, f, v) ∷ log) key field val e = elim (Bool-cases (str_eq k key)) [
  | inl b ↦ rw b refl
  | inr b ↦ rw b (contains-keys_of log key field val (rw b at e))
]

pub there : (log : Log) (key : String) → contains (keys_of log) key ≡ true → IsThere fields log key
there [] key e = absurd (false-ne-true e)
  where
    false-ne-true : false ≡ true → ⊥
    false-ne-true h = cc
there ((k, f, v) ∷ log) key e = elim (Bool-cases (str_eq k key)) [
  | inl b ↦ (f, v, rw (b, eq_refl f) refl)
  | inr b ↦ let (f', v', h) = there log key (rw b at e) in (f', v', rw b h)
]

pub fields-push :
    (key : String) (pairs : List (String × String)) (field : String) (log : Log)
    → fields (push key pairs log) key field ≡ or_else (last_of field pairs) (fields log key field)
fields-push key [] field log = refl
fields-push key ((f, v) ∷ pairs) field log =
    fields-push key pairs field ((key, f, v) ∷ log)
    ∙ rw (eq_refl key) (merged (last_of field pairs) (str_eq f field))
  where
    merged :
        (o : Option String) (b : Bool)
        → or_else o (if b then some v else fields log key field)
          ≡ or_else (or_else o (if b then some v else none)) (fields log key field)
    merged (some u) b = refl
    merged none true = refl
    merged none false = refl

pub push-other :
    (key : String) (pairs : List (String × String)) (other : String) (log : Log)
    → str_eq key other ≡ false
    → (field : String) → fields (push key pairs log) other field ≡ fields log other field
push-other key [] other log ne field = refl
push-other key ((f, v) ∷ pairs) other log ne field =
    push-other key pairs other ((key, f, v) ∷ log) ne field ∙ rw ne refl

-- The first reply is the last one, with all keys.
pub scanned :
    {cursor n : ℕ} {keys : List String} {w w' : Log}
    → Scans log_connection cursor w n keys w'
    → keys ≡ keys_of w
scanned (last cursor w w' keys e) = cc
scanned (next cursor cursor' w w1 w' keys rest n ne e scans) =
    absurd (not_zero cursor' w keys w1 ne e)
  where
    not_zero :
        (cursor' : ℕ) (w : Log) (keys : List String) (w1 : Log)
        → (cursor' == 0) ≡ false
        → log_connection.scan cursor w ≡ (value (cursor', keys), w1)
        → ⊥
    not_zero cursor' w keys w1 ne e = let same : 0 ≡ cursor' = cc in zero-is (rw (← same) at ne)
      where
        zero-is : (0 == 0) ≡ false → ⊥
        zero-is h = cc

unfoldable pub log_flags : Flags log_connection
log_flags = record {
  has = λ w key. is_some (fields w key "enabled");
  hset_none = λ key flag w h. rw h refl;
  hset_has = λ key flag other w h. elim (Bool-cases (str_eq key other)) [
    | inl e ↦ rw e refl
    | inr e ↦ rw e h
  ];
}

unfoldable pub log_hashes : Hashes log_connection log_outside
log_hashes = record {
  hash = fields;
  println_hash = λ text key w. refl;
  read_hash = λ path key w. refl;
  get_hash = λ url key w. refl;
  scan_hash = λ cursor key w. refl;
  hset_multiple_hash = λ key pairs other w ne. fun_ext (push-other key pairs other w ne);
  scan_complete = λ n keys w w' scans filter domain field val e.
      rw (scanned scans) (contains-keys_of w (rule_key filter domain) field val e);
}

pub log-Writes : Writes log_connection log_outside log_hashes
unfolding log_hashes
log-Writes = record {
  hset_multiple_sets = λ key pairs field w. fields-push key pairs field w;
  scan_sound = λ n keys w w' scans key e. there w key (rw (scanned scans) at e);
}
