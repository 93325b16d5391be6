-- ===== src/RedisCtl/Rules/Answered.antt =====
-- The fields that `add` writes, against the lies of the daemon.
use dnsliar_rs.Base.{
  String, ◌≡◌, refl, sym, ◌∙◌, Bool, true, false, ◌&&◌, ◌||◌, Option, none, some, List, [], ◌∷◌,
  ◌++◌, Option-cases, inl, inr, if◌then◌else◌,
}
use dnsliar_rs.Base.Text.{str_eq}
use dnsliar_rs.Net.{Ipv4Addr, Ipv6Addr, IpAddr, v4, v6, IpTextLaws, parse_ip, v4_or, as_v6}
use dnsliar_rs.Dns.{Types}
use dnsliar_rs.Env.{Env}
use dnsliar_rs.RedisCtl.{Ended, done}
use dnsliar_rs.RedisCtl.Rules.{
  Parsed, parsed, rule_fields, with_a, with_aaaa, with_both, with_one, two_args, one_arg, type_args,
}
use dnsliar_rs.RedisCtl.Rules.Add.{
  ReadsBack, TypeTexts, IsAnswered, GoodField, GoodFields, GoodParsed, custom4-IsLie, custom6-IsLie,
  GoodFields-IsAnswered, ones-GoodField, a-GoodField, aaaa-GoodField, other-GoodField,
}

module _ {T : Types} (env : Env T) (sinks : Ipv4Addr × Ipv6Addr) (texts : TypeTexts env.hickory)
    (laws : IpTextLaws env.ip) (back : ReadsBack env.ip) where
  none_of_v6 : (s : String) (ip : Ipv6Addr) → env.ip.parse_v6 s ≡ some ip → env.ip.parse_v4 s ≡ none
  none_of_v6 s ip e = elim (Option-cases (env.ip.parse_v4 s)) [
    | inl n ↦ n
    | inr (ip4, f) ↦ absurd (some-ne-none (sym e ∙ laws.v4_not_v6 s ip4 f))
  ]
    where
      some-ne-none : some ip ≡ none → ⊥
      some-ne-none h = cc

  shown4 :
      (s : String) (ip : Ipv4Addr)
      → env.ip.parse_v4 s ≡ some ip
      → GoodField env sinks "A" (env.ip.show_v4 ip)
  shown4 s ip e = a-GoodField env sinks texts _ (custom4-IsLie env sinks _ ip (back.v4_back s ip e))

  shown6 :
      (s : String) (ip : Ipv6Addr)
      → env.ip.parse_v6 s ≡ some ip
      → GoodField env sinks "AAAA" (env.ip.show_v6 ip)
  shown6 s ip e =
      let read : env.ip.parse_v6 (env.ip.show_v6 ip) ≡ some ip = back.v6_back s ip e in
      aaaa-GoodField env sinks texts _ (custom6-IsLie env sinks _ ip (none_of_v6 _ ip read) read)

  pub ones : (key1 key2 : String) → GoodFields env sinks (key1 ∷ "1" ∷ key2 ∷ "1" ∷ [])
  ones key1 key2 = (ones-GoodField env sinks key1, (ones-GoodField env sinks key2, tt))

  -- The text of an address, by its family.
  abbrev pub IsShown : IpAddr → Type 0
  IsShown (v4 ip) = GoodField env sinks "A" (env.ip.show_v4 ip)
  IsShown (v6 ip) = GoodField env sinks "AAAA" (env.ip.show_v6 ip)

  pub parse_ip-IsShown : (s : String) (ip : IpAddr) → parse_ip env.ip s ≡ some ip → IsShown ip
  parse_ip-IsShown s ip e = go (env.ip.parse_v4 s) (env.ip.parse_v6 s) (shown4 s) (shown6 s) ip e
    where
      go :
          (o4 : Option Ipv4Addr) (o6 : Option Ipv6Addr)
          → ((i : Ipv4Addr) → o4 ≡ some i → IsShown (v4 i))
          → ((i : Ipv6Addr) → o6 ≡ some i → IsShown (v6 i))
          → (ip : IpAddr) → v4_or o4 (as_v6 o6) ≡ some ip
          → IsShown ip
      go none none h4 h6 ip e = cc
      go none (some i) h4 h6 ip e = let same : v6 i ≡ ip = cc in rw (← same) (h6 i refl)
      go (some i) o6 h4 h6 ip e = let same : v4 i ≡ ip = cc in rw (← same) (h4 i refl)

  with_a-Good :
      (o : Option Ipv6Addr)
      → ((ip : Ipv6Addr) → o ≡ some ip → IsShown (v6 ip))
      → GoodParsed env sinks (with_a env.ip o)
  with_a-Good none h = tt
  with_a-Good (some ip) h = (ones-GoodField env sinks "A", (h ip refl, tt))

  with_aaaa-Good :
      (o : Option Ipv4Addr)
      → ((ip : Ipv4Addr) → o ≡ some ip → IsShown (v4 ip))
      → GoodParsed env sinks (with_aaaa env.ip o)
  with_aaaa-Good none h = tt
  with_aaaa-Good (some ip) h = (ones-GoodField env sinks "AAAA", (h ip refl, tt))

  with_one-Good :
      (o : Option IpAddr)
      → ((ip : IpAddr) → o ≡ some ip → IsShown ip)
      → GoodParsed env sinks (with_one env.ip o)
  with_one-Good none h = tt
  with_one-Good (some (v4 ip)) h = (h (v4 ip) refl, tt)
  with_one-Good (some (v6 ip)) h = (h (v6 ip) refl, tt)

  with_both-Good :
      (o p : Option IpAddr)
      → ((ip : IpAddr) → o ≡ some ip → IsShown ip)
      → ((ip : IpAddr) → p ≡ some ip → IsShown ip)
      → GoodParsed env sinks (with_both env.ip o p)
  with_both-Good none p h k = tt
  with_both-Good (some (v4 i)) none h k = tt
  with_both-Good (some (v4 i)) (some (v4 j)) h k = tt
  with_both-Good (some (v4 i)) (some (v6 j)) h k = (h (v4 i) refl, (k (v6 j) refl, tt))
  with_both-Good (some (v6 i)) none h k = tt
  with_both-Good (some (v6 i)) (some (v4 j)) h k = (k (v4 j) refl, (h (v6 i) refl, tt))
  with_both-Good (some (v6 i)) (some (v6 j)) h k = tt

  record IsGood (p : Parsed) : Type 0 where
    good : GoodParsed env sinks p

  if-Good : (b : Bool) {p q : Parsed} → IsGood p → IsGood q → IsGood (if b then p else q)
  if-Good true g h = g
  if-Good false g h = h

  two_args-Good : (ip1 ip2 : String) → IsGood (two_args env.ip ip1 ip2)
  unfolding two_args
  two_args-Good ip1 ip2 =
      if-Good ((str_eq ip1 "A" && str_eq ip2 "AAAA") || (str_eq ip1 "AAAA" && str_eq ip2 "A"))
        (record { good = ones ip1 ip2 })
        (if-Good (str_eq ip1 "A") (record { good = with_a-Good _ (shown6 ip2) })
          (if-Good (str_eq ip2 "A") (record { good = with_a-Good _ (shown6 ip1) })
            (if-Good (str_eq ip1 "AAAA") (record { good = with_aaaa-Good _ (shown4 ip2) })
              (if-Good (str_eq ip2 "AAAA") (record { good = with_aaaa-Good _ (shown4 ip1) })
                (record {
                  good = with_both-Good _ _ (parse_ip-IsShown ip1) (parse_ip-IsShown ip2);
                })))))

  one_arg-Good : (ip : String) → IsGood (one_arg env.ip ip)
  unfolding one_arg
  one_arg-Good ip =
      if-Good (str_eq ip "A") (record { good = (ones-GoodField env sinks ip, tt) })
        (if-Good (str_eq ip "AAAA") (record { good = (ones-GoodField env sinks ip, tt) })
          (record { good = with_one-Good _ (parse_ip-IsShown ip) }))

  pub rule_fields-Good :
      (date src : String) (types : List String)
      → GoodFields env sinks types
      → GoodFields env sinks (rule_fields date src ++ types)
  rule_fields-Good date src types g = (
    other-GoodField env sinks texts "enabled" "1" refl refl,
    (
      other-GoodField env sinks texts "date" date refl refl,
      (other-GoodField env sinks texts "source" src refl refl, g),
    ),
  )

  -- Whatever addresses or types are given to `add`, if it writes a rule, then for a question of type A
  -- or AAAA each value that the daemon finds among the fields gives a lie, a record of the type asked,
  -- and not the error of an invalid rule. This needs that no text is both an IPv4 and an IPv6 address,
  -- that an address that was read is written so that it is read again, and that hickory writes the
  -- two types as "A" and "AAAA".
  pub type_args-IsAnswered :
      {Fault : Type 0} (date src : String) (ip1 ip2 : Option String) (types : List String)
      → type_args env.ip {Fault = Fault} ip1 ip2 ≡ done (parsed types)
      → IsAnswered env sinks (rule_fields date src ++ types)
  unfolding type_args
  type_args-IsAnswered {Fault = Fault} date src ip1 ip2 types e =
      GoodFields-IsAnswered env sinks (rule_fields date src ++ types)
        (rule_fields-Good date src types (good ip1 ip2 e))
    where
      from :
          {p : Parsed}
          → ◌≡◌ {A = Ended Fault Parsed} (done p) (done (parsed types))
          → GoodParsed env sinks p
          → GoodFields env sinks types
      from {p = p} e g = let same : p ≡ parsed types = cc in rw same at g

      good :
          (ip1 ip2 : Option String)
          → type_args env.ip {Fault = Fault} ip1 ip2 ≡ done (parsed types)
          → GoodFields env sinks types
      good none none e = from e (ones "A" "AAAA")
      good none (some ip) e = cc
      good (some ip) none e = from e (one_arg-Good ip).good
      good (some ip1) (some ip2) e = from e (two_args-Good ip1 ip2).good
