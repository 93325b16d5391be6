-- ===== src/RedisCtl/Rules/Add.antt =====
-- What the daemon makes of the fields of a rule: which of them answer a question.
use dnsliar_rs.Base.{
  String, ◌≡◌, refl, sym, ◌∙◌, Bool, true, false, Option, none, some, List, [], ◌∷◌, Option-cases,
  Bool-cases, inl, inr, if◌then◌else◌,
}
use dnsliar_rs.Base.Text.{str_eq}
use dnsliar_rs.Net.{Ipv4Addr, Ipv6Addr, IpText}
use dnsliar_rs.Exec.{ok}
use dnsliar_rs.Dns.{Types, RecordType, RData, rdata_type, Hickory}
use dnsliar_rs.Env.{Env}
use dnsliar_rs.Filtering.{lie, sink_rdata, custom_rdata}
use dnsliar_rs.Filtering.Rules.{or_else}
use dnsliar_rs.Filtering.Total.{IsAddressType}
use dnsliar_rs.RedisCtl.Rules.{Parsed, parsed, rejected}

-- `Display` writes an address that was read so that it is read again, as `std::net` documents.
pub record ReadsBack (text : IpText) : Type 0 where
  pub v4_back :
      (s : String) (ip : Ipv4Addr)
      → text.parse_v4 s ≡ some ip
      → text.parse_v4 (text.show_v4 ip) ≡ some ip
  pub v6_back :
      (s : String) (ip : Ipv6Addr)
      → text.parse_v6 s ≡ some ip
      → text.parse_v6 (text.show_v6 ip) ≡ some ip

-- How hickory writes the two types.
pub record TypeTexts {T : Types} (hickory : Hickory T) : Type 0 where
  pub a_text : hickory.type_to_string RecordType.a ≡ "A"
  pub aaaa_text : hickory.type_to_string RecordType.aaaa ≡ "AAAA"

-- The value of a field after `hset` of the arguments: the last one counts.
abbrev pub field_of : String → List String → Option String
field_of field [] = none
field_of field (key ∷ []) = none
field_of field (key ∷ val ∷ rest) =
    or_else (field_of field rest) (if str_eq key field then some val else none)

-- Each field has its value.
abbrev pub is_even : List String → Bool
is_even [] = true
is_even (key ∷ []) = false
is_even (key ∷ val ∷ rest) = is_even rest

true-ne-false : true ≡ false → ⊥
true-ne-false h = cc

module _ {T : Types} (env : Env T) (sinks : Ipv4Addr × Ipv6Addr) where
  -- The daemon answers a question of type `t` by the value, with a record of that type.
  abbrev IsLie : RecordType → String → Type 0
  IsLie t rule_val = (d : RData T) × (lie env rule_val t sinks ≡ ok d) × (rdata_type d ≡ t)

  -- The daemon answers by each value that it finds among the fields.
  abbrev pub IsAnswered : List String → Type 0
  IsAnswered args =
      (t : RecordType) (rule_val : String)
      → IsAddressType t
      → field_of (env.hickory.type_to_string t) args ≡ some rule_val
      → IsLie t rule_val

  one-IsLie : (t : RecordType) → IsAddressType t → IsLie t "1"
  unfolding lie sink_rdata
  one-IsLie t (inl e) = (RData.a sinks.0, rw e refl, sym e)
  one-IsLie t (inr e) = (RData.aaaa sinks.1, rw e refl, sym e)

  pub custom4-IsLie :
      (s : String) (ip : Ipv4Addr) → env.ip.parse_v4 s ≡ some ip → IsLie RecordType.a s
  unfolding lie sink_rdata custom_rdata
  custom4-IsLie s ip e = elim (Bool-cases (str_eq s "1")) [
    | inl b ↦ (RData.a sinks.0, rw b refl, refl)
    | inr b ↦ (RData.a ip, rw (b, e) refl, refl)
  ]

  pub custom6-IsLie :
      (s : String) (ip : Ipv6Addr)
      → env.ip.parse_v4 s ≡ none
      → env.ip.parse_v6 s ≡ some ip
      → IsLie RecordType.aaaa s
  unfolding lie sink_rdata custom_rdata
  custom6-IsLie s ip n e = elim (Bool-cases (str_eq s "1")) [
    | inl b ↦ (RData.aaaa sinks.1, rw b refl, refl)
    | inr b ↦ (RData.aaaa ip, rw (b, n, e) refl, refl)
  ]

  -- What is asked of one field, and of all.
  abbrev pub GoodField : String → String → Type 0
  GoodField key val =
      (t : RecordType)
      → IsAddressType t
      → str_eq key (env.hickory.type_to_string t) ≡ true
      → IsLie t val

  abbrev pub GoodFields : List String → Type 0
  GoodFields [] = Unit
  GoodFields (key ∷ []) = Unit
  GoodFields (key ∷ val ∷ rest) = GoodField key val × GoodFields rest

  abbrev pub GoodParsed : Parsed → Type 0
  GoodParsed (rejected message) = Unit
  GoodParsed (parsed args) = GoodFields args

  pub GoodFields-IsAnswered : (args : List String) → GoodFields args → IsAnswered args
  GoodFields-IsAnswered [] g t v asked e = cc
  GoodFields-IsAnswered (key ∷ []) g t v asked e = cc
  GoodFields-IsAnswered (key ∷ val ∷ rest) g t v asked e =
      elim (Option-cases (field_of (env.hickory.type_to_string t) rest)) [
        | inr (u, q) ↦ GoodFields-IsAnswered rest g.1 t v asked (q ∙ rw q at e)
        | inl q ↦ elim (Bool-cases (str_eq key (env.hickory.type_to_string t))) [
          | inl b ↦
              let same : val ≡ v = some-injective (rw (q, b) at e) in rw (← same) (g.0 t asked b)
          | inr b ↦ absurd (none-ne-some (rw (q, b) at e))
        ]
      ]
    where
      some-injective : {x y : String} → some x ≡ some y → x ≡ y
      some-injective h = cc

      none-ne-some : {x : String} → ◌≡◌ {A = Option String} none (some x) → ⊥
      none-ne-some h = cc

  pub ones-GoodField : (key : String) → GoodField key "1"
  ones-GoodField key t asked b = one-IsLie t asked

  module _ (texts : TypeTexts env.hickory) where
    pub a-GoodField : (val : String) → IsLie RecordType.a val → GoodField "A" val
    a-GoodField val g t (inl e) b = rw e g
    a-GoodField val g t (inr e) b = absurd (true-ne-false (sym b ∙ rw (e, texts.aaaa_text) refl))

    pub aaaa-GoodField : (val : String) → IsLie RecordType.aaaa val → GoodField "AAAA" val
    aaaa-GoodField val g t (inl e) b = absurd (true-ne-false (sym b ∙ rw (e, texts.a_text) refl))
    aaaa-GoodField val g t (inr e) b = rw e g

    -- A key that is no type.
    pub other-GoodField :
        (key val : String) → str_eq key "A" ≡ false → str_eq key "AAAA" ≡ false → GoodField key val
    other-GoodField key val na n4 t (inl e) b =
        absurd (true-ne-false (sym b ∙ rw (e, texts.a_text) na))
    other-GoodField key val na n4 t (inr e) b =
        absurd (true-ne-false (sym b ∙ rw (e, texts.aaaa_text) n4))
