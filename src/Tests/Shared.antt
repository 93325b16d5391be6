-- ===== src/Tests/Shared.antt =====
-- One small Redis that the tool and the daemon share: sets of texts, and hashes by their keys.
use dnsliar_rs.Base.{
  ℕ, String, ◌≡◌, refl, sym, ap, ◌∙◌, Bool, true, false, ◌&&◌, Option, none, some, List, [], ◌∷◌,
  ◌++◌, if◌then◌else◌, Bool-cases, inl, inr, length,
}
use dnsliar_rs.Base.Text.{str_eq, eq_iff, to_lowercase}
use dnsliar_rs.Exec.{Reply, value}
use dnsliar_rs.Redis.{Redis}
use dnsliar_rs.Dns.{Types, RecordType, ResponseCode, Hickory, failed, no_records_found}
use dnsliar_rs.Env.{Env}
use dnsliar_rs.Filtering.Rules.{Rules, or_else}
use dnsliar_rs.RedisCtl.{Connection}
use dnsliar_rs.RedisCtl.Feed.{contains}
use dnsliar_rs.RedisCtl.Feed.Scan.{contains-append}
use dnsliar_rs.RedisCtl.Conf.Sets.{SharedSets, distinct}
use dnsliar_rs.RedisCtl.Rules.Add.{field_of}
use dnsliar_rs.RedisCtl.Rules.Applied.{SharedHashes}
use dnsliar_rs.RedisCtl.Rules.Disabled.{SharedFlags}
use dnsliar_rs.Tests.Toy.{toy_ip}

pub record Store : Type 0 where
  pub sets : String → List String
  pub hashes : List (String × (String → Option String))

-- The first hash with the key counts.
abbrev pub fields : List (String × (String → Option String)) → String → String → Option String
fields [] key field = none
fields ((k, hash) ∷ rest) key field = if str_eq key k then hash field else fields rest key field

abbrev keys_of : List (String × (String → Option String)) → List String
keys_of [] = []
keys_of ((k, hash) ∷ rest) = k ∷ keys_of rest

abbrev pairs_of : String → List (String × String) → Option String
pairs_of field [] = none
pairs_of field ((key, val) ∷ rest) =
    or_else (pairs_of field rest) (if str_eq key field then some val else none)

abbrev put : String → (String → Option String) → Store → Store
put key new w = record w {
  hashes = (key, λ field. or_else (new field) (fields w.hashes key field)) ∷ w.hashes;
}

abbrev once : List String → List String
once [] = []
once (x ∷ xs) = let rest = once xs in if contains rest x then rest else x ∷ rest

abbrev pub is_one : Option String → Bool
is_one none = false
is_one (some val) = str_eq val "1"

abbrev pub shared_types : Types
shared_types = record {
  World = Store;
  Fault = ℕ;
  Name = String;
  Data = String;
  Edns = Bool;
  ResponseInfo = ℕ;
}

abbrev shared_redis : Redis Store ℕ
shared_redis = record {
  hget = λ key field w. (value (fields w.hashes key field), w);
  hget_bool = λ key field w. (value (is_one (fields w.hashes key field)), w);
  hset_epoch = λ key field n w. (value tt, w);
  hincr = λ key field n w. (value tt, w);
  sismember = λ key member w. (value (contains (w.sets key) member), w);
  smembers = λ key w. (value (once (w.sets key)), w);
}

abbrev type_name : RecordType → String
type_name RecordType.a = "A"
type_name RecordType.aaaa = "AAAA"
type_name _ = "OTHER"

abbrev shared_hickory : Hickory shared_types
shared_hickory = record {
  name_eq = λ x y. str_eq x y;
  name_to_string = λ name. name;
  to_lowercase = to_lowercase;
  new_name = "";
  type_to_string = type_name;
  dnssec_ok = λ edns. edns;
  response_from_request = λ request. record {
    id = request.id;
    authoritative = true;
    recursion_available = false;
    response_code = ResponseCode.no_error;
  };
  lookup =
      λ name type wants_dnssec w. (failed (no_records_found ResponseCode.serv_fail none none), w);
  clear_cache = λ w. w;
  send_response = λ message w. (value (length message.answer), w);
}

abbrev pub shared_env : Env shared_types
shared_env = record {
  redis = shared_redis;
  hickory = shared_hickory;
  ip = toy_ip;
  epoch = λ w. (value 1000, w);
}

abbrev pub shared_connection : Connection Store ℕ
shared_connection = record {
  scan_match = λ pattern w. (value (keys_of w.hashes), w);
  hset = λ key field val w. (value 0, put key (λ f. if str_eq field f then some val else none) w);
  command = λ name key args w.
      if str_eq name "hset"
      then (value true, put key (λ field. field_of field args) w)
      else (value false, w);
  hgetall = λ key w. (value "", w);
  smembers = λ key w. (value (once (w.sets key)), w);
  sadd = λ key members w.
      (value 0, record w { sets = λ k. if str_eq k key then members ++ w.sets k else w.sets k });
  srem = λ key members w. (value 0, w);
  del = λ key w. (value tt, record w { sets = λ k. if str_eq k key then [] else w.sets k });
  del_keys = λ keys w. (value 0, w);
  scan = λ cursor w. (value (0, keys_of w.hashes), w);
  hset_multiple = λ key pairs w. (value true, put key (λ field. pairs_of field pairs) w);
  now = λ w. (2024, 1, 1);
  println = λ text w. w;
  show_usize = λ n. "0";
  show_4 = λ n. "2024";
  show_02 = λ n. "01";
  show_debug = λ s. s;
  show_list = λ l. "";
  show_fault = λ f. "";
}

contains-once : (l : List String) (m : String) → contains (once l) m ≡ contains l m
contains-once [] m = refl
contains-once (x ∷ xs) m = elim (Bool-cases (contains (once xs) x)) [
  | inl e ↦ rw e (elim (Bool-cases (str_eq x m)) [
    | inl same ↦ rw same (ap (contains (once xs)) (sym ((eq_iff x m).0 same)) ∙ e)
    | inr other ↦ rw other (contains-once xs m)
  ])
  | inr e ↦ rw (e, contains-once xs m) refl
]

once-distinct : (l : List String) → distinct (once l) ≡ true
once-distinct [] = refl
once-distinct (x ∷ xs) = elim (Bool-cases (contains (once xs) x)) [
  | inl e ↦ rw e (once-distinct xs)
  | inr e ↦ rw e (rw (e, once-distinct xs) refl)
]

contains-if :
    (b : Bool) (l l' : List String) (m : String)
    → contains (if b then l else l') m ≡ (if b then contains l m else contains l' m)
contains-if true l l' m = refl
contains-if false l l' m = refl

pub shared_sets : SharedSets shared_env shared_connection
shared_sets = record {
  has = λ w key m. contains (w.sets key) m;
  del_has = λ key w. (_, refl, λ k m. contains-if (str_eq k key) [] (w.sets k) m);
  sadd_has = λ key first ms w. (
    0,
    _,
    refl,
    λ k m.
        contains-if (str_eq k key) ((first ∷ ms) ++ w.sets k) (w.sets k) m
        ∙ ap (λ (b : Bool). if str_eq k key then b else contains (w.sets k) m)
            (contains-append (first ∷ ms) (w.sets k) m),
  );
  println_has = λ text k m w. refl;
  sismember_has = λ key m w. refl;
  smembers_has =
      λ key w. (once (w.sets key), refl, once-distinct (w.sets key), contains-once (w.sets key));
}

flipped : (a b : String) → str_eq a b ≡ false → str_eq b a ≡ false
flipped a b ne = elim (Bool-cases (str_eq b a)) [
  | inl e ↦ absurd (true-ne-false (sym ((eq_iff a b).1 (sym ((eq_iff b a).0 e))) ∙ ne))
  | inr e ↦ e
]
  where
    true-ne-false : true ≡ false → ⊥
    true-ne-false h = cc

value-injective :
    {A : Type 0} {x y : A} {w : Store}
    → ◌≡◌ {A = Reply ℕ A × Store} (value x, w) (value y, w)
    → x ≡ y
value-injective h = cc

hget_after :
    (rules : Rules) (w : Store) (k key field : String) (new : Option String)
    → ((k' : String) → fields w.hashes k' field ≡ rules.field_of k' field)
    → (if str_eq k key then or_else new (fields w.hashes key field) else fields w.hashes k field)
      ≡ (if str_eq k key then or_else new (rules.field_of k field) else rules.field_of k field)
hget_after rules w k key field new h = elim (Bool-cases (str_eq k key)) [
  | inl e ↦ rw e (
      ap (or_else new)
        (ap (λ (x : String). fields w.hashes x field) (sym ((eq_iff k key).0 e)) ∙ h k))
  | inr e ↦ rw e (h k)
]

enabled_after :
    (rules : Rules) (w : Store) (k key : String) (new : Option String)
    → new ≡ some "1"
    → is_one (fields w.hashes k "enabled") ≡ rules.is_enabled k
    → is_one (
        if str_eq k key
        then or_else new (fields w.hashes key "enabled")
        else fields w.hashes k "enabled")
      ≡ (if str_eq k key then true else rules.is_enabled k)
enabled_after rules w k key new on h = elim (Bool-cases (str_eq k key)) [
  | inl e ↦ rw (e, on) refl
  | inr e ↦ rw e h
]

pub shared_hashes : SharedHashes shared_env shared_connection
shared_hashes = record {
  hset_reads = λ rules key args w even on reads. (
    true,
    _,
    refl,
    record {
      hget = λ k field.
          ap (λ (o : Option String). (value o, put key (λ f. field_of f args) w))
            (hget_after rules w k key field (field_of field args)
              (λ k'. value-injective {A = Option String} (reads.hget k' field)));
      enabled = λ k.
          ap (λ (b : Bool). (value b, put key (λ f. field_of f args) w))
            (enabled_after rules w k key (field_of "enabled" args) on
              (value-injective {A = Bool} (reads.enabled k)));
    },
  );
  println_reads = λ rules text w reads. reads;
}

flag_after :
    (rules : Rules) (w : Store) (k key field : String)
    → ((k' : String) → fields w.hashes k' field ≡ rules.field_of k' field)
    → (if str_eq k key
        then or_else (if str_eq "enabled" field then some "0" else none) (fields w.hashes key field)
        else fields w.hashes k field)
      ≡ (if str_eq k key && str_eq field "enabled" then some "0" else rules.field_of k field)
flag_after rules w k key field h = elim (Bool-cases (str_eq k key)) [
  | inr e ↦ rw e (h k)
  | inl e ↦ elim (Bool-cases (str_eq field "enabled")) [
    | inl f ↦ rw (e, f, (eq_iff "enabled" field).1 (sym ((eq_iff field "enabled").0 f))) refl
    | inr f ↦
        rw (e, f, flipped field "enabled" f)
          (ap (λ (x : String). fields w.hashes x field) (sym ((eq_iff k key).0 e)) ∙ h k)
  ]
]

off_after :
    (rules : Rules) (w : Store) (k key : String)
    → is_one (fields w.hashes k "enabled") ≡ rules.is_enabled k
    → is_one (if str_eq k key then some "0" else fields w.hashes k "enabled")
      ≡ (if str_eq k key then false else rules.is_enabled k)
off_after rules w k key h = elim (Bool-cases (str_eq k key)) [ inl e ↦ rw e refl | inr e ↦ rw e h ]

pub shared_flags : SharedFlags shared_env shared_connection
shared_flags = record {
  hset_reads = λ rules key w reads. (
    0,
    _,
    refl,
    record {
      hget = λ k field.
          ap
            (λ (o : Option String).
              (value o, put key (λ f. if str_eq "enabled" f then some "0" else none) w))
            (flag_after rules w k key field
              (λ k'. value-injective {A = Option String} (reads.hget k' field)));
      enabled = λ k.
          ap
            (λ (b : Bool).
              (value b, put key (λ f. if str_eq "enabled" f then some "0" else none) w))
            (off_after rules w k key (value-injective {A = Bool} (reads.enabled k)));
    },
  );
  println_reads = λ rules text w reads. reads;
}
