-- ===== src/RedisCtl/Rules/Pairs.antt =====
-- Which pairs of arguments `add` accepts.
use dnsliar_rs.Base.{
  String, ◌≡◌, refl, sym, ap, ◌∙◌, [], ◌∷◌, Bool, true, false, ◌&&◌, ◌||◌, Option, none, some,
  Option-cases, Bool-cases, inl, inr, if◌then◌else◌,
}
use dnsliar_rs.Base.Text.{str_eq, eq_iff}
use dnsliar_rs.Net.{Ipv4Addr, Ipv6Addr, IpText, IpTextLaws, as_v6, v4_or}
use dnsliar_rs.RedisCtl.{done}
use dnsliar_rs.RedisCtl.Rules.{
  Parsed, parsed, rejected, with_a, with_aaaa, with_both, two_args, type_args,
}

-- The two keywords are no addresses.
pub record Keywords (text : IpText) : Type 0 where
  pub a_v4 : text.parse_v4 "A" ≡ none
  pub a_v6 : text.parse_v6 "A" ≡ none
  pub aaaa_v4 : text.parse_v4 "AAAA" ≡ none
  pub aaaa_v6 : text.parse_v6 "AAAA" ≡ none

abbrev pub is_parsed : Parsed → Bool
is_parsed (parsed types) = true
is_parsed (rejected message) = false

abbrev is_some : {A : Type 0} → Option A → Bool
is_some none = false
is_some (some a) = true

-- What a text can be.
data Kind : Type 0 where
  a_word aaaa_word unknown : Kind
  v4_text : Ipv4Addr → Kind
  v6_text : Ipv6Addr → Kind

abbrev is_a : Kind → Bool
is_a a_word = true
is_a _ = false

abbrev is_aaaa : Kind → Bool
is_aaaa aaaa_word = true
is_aaaa _ = false

abbrev v4_of : Kind → Option Ipv4Addr
v4_of (v4_text ip) = some ip
v4_of _ = none

abbrev v6_of : Kind → Option Ipv6Addr
v6_of (v6_text ip) = some ip
v6_of _ = none

module _ (text : IpText) where
  -- What a text says of each type: its keyword stands for the sink, an address for itself.
  abbrev pub covers_a : String → Bool
  covers_a ip = str_eq ip "A" || is_some (text.parse_v4 ip)

  abbrev pub covers_aaaa : String → Bool
  covers_aaaa ip = str_eq ip "AAAA" || is_some (text.parse_v6 ip)

  abbrev IsKind : String → Kind → Type 0
  IsKind ip kind =
      (str_eq ip "A" ≡ is_a kind)
      × (str_eq ip "AAAA" ≡ is_aaaa kind)
      × (text.parse_v4 ip ≡ v4_of kind)
      × (text.parse_v6 ip ≡ v6_of kind)

  kind_of : Keywords text → IpTextLaws text → (ip : String) → (kind : Kind) × IsKind ip kind
  kind_of words laws ip = elim (Bool-cases (str_eq ip "A")) [
    | inl a ↦
        let same : ip ≡ "A" = (eq_iff ip "A").0 a in
        (a_word, rw same (refl, refl, words.a_v4, words.a_v6))
    | inr na ↦ elim (Bool-cases (str_eq ip "AAAA")) [
      | inl b ↦
          let same : ip ≡ "AAAA" = (eq_iff ip "AAAA").0 b in
          (aaaa_word, rw same (refl, refl, words.aaaa_v4, words.aaaa_v6))
      | inr nb ↦ elim (Option-cases (text.parse_v4 ip)) [
        | inr (i, e) ↦ (v4_text i, (na, nb, e, laws.v4_not_v6 ip i e))
        | inl n ↦ elim (Option-cases (text.parse_v6 ip)) [
          | inr (j, e) ↦ (v6_text j, (na, nb, n, e))
          | inl m ↦ (unknown, (na, nb, n, m))
        ]
      ]
    ]
  ]

  -- The arms of `two_args`, on what the two texts are.
  abbrev arms : Kind → Kind → String → String → Parsed
  arms k l ip1 ip2 =
      if (is_a k && is_aaaa l) || (is_aaaa k && is_a l)
      then parsed (ip1 ∷ "1" ∷ ip2 ∷ "1" ∷ [])
      else if is_a k
      then with_a text (v6_of l)
      else if is_a l
      then with_a text (v6_of k)
      else if is_aaaa k
      then with_aaaa text (v4_of l)
      else if is_aaaa l
      then with_aaaa text (v4_of k)
      else with_both text (v4_or (v4_of k) (as_v6 (v6_of k))) (v4_or (v4_of l) (as_v6 (v6_of l)))

  cases :
      (k l : Kind) (ip1 ip2 : String)
      → is_parsed (arms k l ip1 ip2) ≡ (
          ((is_a k || is_some (v4_of k)) && (is_aaaa l || is_some (v6_of l)))
          || ((is_aaaa k || is_some (v6_of k)) && (is_a l || is_some (v4_of l))))
  cases a_word a_word ip1 ip2 = refl
  cases a_word aaaa_word ip1 ip2 = refl
  cases a_word (v4_text i') ip1 ip2 = refl
  cases a_word (v6_text j') ip1 ip2 = refl
  cases a_word unknown ip1 ip2 = refl
  cases aaaa_word a_word ip1 ip2 = refl
  cases aaaa_word aaaa_word ip1 ip2 = refl
  cases aaaa_word (v4_text i') ip1 ip2 = refl
  cases aaaa_word (v6_text j') ip1 ip2 = refl
  cases aaaa_word unknown ip1 ip2 = refl
  cases (v4_text i) a_word ip1 ip2 = refl
  cases (v4_text i) aaaa_word ip1 ip2 = refl
  cases (v4_text i) (v4_text i') ip1 ip2 = refl
  cases (v4_text i) (v6_text j') ip1 ip2 = refl
  cases (v4_text i) unknown ip1 ip2 = refl
  cases (v6_text j) a_word ip1 ip2 = refl
  cases (v6_text j) aaaa_word ip1 ip2 = refl
  cases (v6_text j) (v4_text i') ip1 ip2 = refl
  cases (v6_text j) (v6_text j') ip1 ip2 = refl
  cases (v6_text j) unknown ip1 ip2 = refl
  cases unknown a_word ip1 ip2 = refl
  cases unknown aaaa_word ip1 ip2 = refl
  cases unknown (v4_text i') ip1 ip2 = refl
  cases unknown (v6_text j') ip1 ip2 = refl
  cases unknown unknown ip1 ip2 = refl

  two_args-arms :
      (k l : Kind) (ip1 ip2 : String)
      → IsKind ip1 k
      → IsKind ip2 l
      → two_args text ip1 ip2 ≡ arms k l ip1 ip2
  unfolding two_args
  two_args-arms k l ip1 ip2 (a, b, c, d) (a', b', c', d') = rw (a, b, c, d, a', b', c', d') refl

  -- `add` with two arguments accepts them exactly when one of them is "A" or an IPv4 address and
  -- the other is "AAAA" or an IPv6 address, in either order; other pairs, as "A" with an IPv4
  -- address, are rejected. This needs that no text is both an IPv4 and an IPv6 address, and that
  -- the two keywords are no addresses.
  pub type_args-is_parsed :
      {Fault : Type 0}
      → Keywords text
      → IpTextLaws text
      → (ip1 ip2 : String)
      → (p : Parsed) × (type_args text {Fault = Fault} (some ip1) (some ip2) ≡ done p)
        × (is_parsed p ≡ ((covers_a ip1 && covers_aaaa ip2) || (covers_aaaa ip1 && covers_a ip2)))
  unfolding type_args
  type_args-is_parsed words laws ip1 ip2 =
      let (k, kind1) = kind_of words laws ip1 in
      let (l, kind2) = kind_of words laws ip2 in
      let (a, b, c, d) = kind1 in
      let (a', b', c', d') = kind2 in
      (
        two_args text ip1 ip2,
        refl,
        ap is_parsed (two_args-arms k l ip1 ip2 kind1 kind2)
            ∙ cases k l ip1 ip2
            ∙ sym (rw (a, b, c, d, a', b', c', d') refl),
      )
