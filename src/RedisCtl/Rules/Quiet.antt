-- ===== src/RedisCtl/Rules/Quiet.antt =====
-- The fields of the types that `add` writes, and the field that enables the rule.
use dnsliar_rs.Base.{
  String, ◌≡◌, refl, Bool, true, false, ◌&&◌, ◌||◌, Option, none, some, List, inl, inr,
  if◌then◌else◌, Bool-cases, arith,
}
use dnsliar_rs.Base.Text.{str_eq, eq_iff}
use dnsliar_rs.Net.{Ipv4Addr, Ipv6Addr, IpAddr, v4, v6, IpText}
use dnsliar_rs.RedisCtl.{Ended, done}
use dnsliar_rs.RedisCtl.Rules.{
  Parsed, parsed, rejected, with_a, with_aaaa, with_both, with_one, two_args, one_arg, type_args,
}
use dnsliar_rs.RedisCtl.Rules.Add.{field_of, is_even}

-- The fields of the types are no other fields, and each has a value.
abbrev IsQuiet : Parsed → Type 0
IsQuiet (rejected message) = Unit
IsQuiet (parsed types) = (field_of "enabled" types ≡ none) × (is_even types ≡ true)

record Quiet (p : Parsed) : Type 0 where
  quiet : IsQuiet p

if-Quiet :
    (b : Bool) {p q : Parsed}
    → (b ≡ true → Quiet p)
    → (b ≡ false → Quiet q)
    → Quiet (if b then p else q)
if-Quiet true g h = g refl
if-Quiet false g h = h refl

module _ (text : IpText) where
  with_a-Quiet : (o : Option Ipv6Addr) → Quiet (with_a text o)
  with_a-Quiet none = record { quiet = tt }
  with_a-Quiet (some ip) = record { quiet = (refl, refl) }

  with_aaaa-Quiet : (o : Option Ipv4Addr) → Quiet (with_aaaa text o)
  with_aaaa-Quiet none = record { quiet = tt }
  with_aaaa-Quiet (some ip) = record { quiet = (refl, refl) }

  with_one-Quiet : (o : Option IpAddr) → Quiet (with_one text o)
  with_one-Quiet none = record { quiet = tt }
  with_one-Quiet (some (v4 ip)) = record { quiet = (refl, refl) }
  with_one-Quiet (some (v6 ip)) = record { quiet = (refl, refl) }

  with_both-Quiet : (o p : Option IpAddr) → Quiet (with_both text o p)
  with_both-Quiet none p = record { quiet = tt }
  with_both-Quiet (some (v4 i)) none = record { quiet = tt }
  with_both-Quiet (some (v4 i)) (some (v4 j)) = record { quiet = tt }
  with_both-Quiet (some (v4 i)) (some (v6 j)) = record { quiet = (refl, refl) }
  with_both-Quiet (some (v6 i)) none = record { quiet = tt }
  with_both-Quiet (some (v6 i)) (some (v4 j)) = record { quiet = (refl, refl) }
  with_both-Quiet (some (v6 i)) (some (v6 j)) = record { quiet = tt }

  -- A text that is one of two is not a third.
  keyword-Quiet :
      (ip a : String)
      → str_eq ip a ≡ true
      → str_eq a "enabled" ≡ false
      → str_eq ip "enabled" ≡ false
  keyword-Quiet ip a e ne = rw ((eq_iff ip a).0 e) ne

  both_types :
      (ip1 ip2 : String)
      → ((str_eq ip1 "A" && str_eq ip2 "AAAA") || (str_eq ip1 "AAAA" && str_eq ip2 "A")) ≡ true
      → (str_eq ip1 "enabled" ≡ false) × (str_eq ip2 "enabled" ≡ false)
  both_types ip1 ip2 e = elim (Bool-cases (str_eq ip1 "A" && str_eq ip2 "AAAA")) [
    | inl b ↦
        (keyword-Quiet ip1 "A" (ground arith) refl, keyword-Quiet ip2 "AAAA" (ground arith) refl)
    | inr b ↦
        (keyword-Quiet ip1 "AAAA" (ground arith) refl, keyword-Quiet ip2 "A" (ground arith) refl)
  ]

  two_args-Quiet : (ip1 ip2 : String) → Quiet (two_args text ip1 ip2)
  unfolding two_args
  two_args-Quiet ip1 ip2 =
      if-Quiet ((str_eq ip1 "A" && str_eq ip2 "AAAA") || (str_eq ip1 "AAAA" && str_eq ip2 "A"))
        (λ e. let (n1, n2) = both_types ip1 ip2 e in record { quiet = (rw (n1, n2) refl, refl) })
        (λ _.
          if-Quiet (str_eq ip1 "A") (λ _. with_a-Quiet _)
            (λ _.
              if-Quiet (str_eq ip2 "A") (λ _. with_a-Quiet _)
                (λ _.
                  if-Quiet (str_eq ip1 "AAAA") (λ _. with_aaaa-Quiet _)
                    (λ _.
                      if-Quiet (str_eq ip2 "AAAA") (λ _. with_aaaa-Quiet _)
                        (λ _. with_both-Quiet _ _)))))

  one_arg-Quiet : (ip : String) → Quiet (one_arg text ip)
  unfolding one_arg
  one_arg-Quiet ip =
      if-Quiet (str_eq ip "A")
        (λ e. record { quiet = (rw (keyword-Quiet ip "A" e refl) refl, refl) })
        (λ _.
          if-Quiet (str_eq ip "AAAA")
            (λ e. record { quiet = (rw (keyword-Quiet ip "AAAA" e refl) refl, refl) })
            (λ _. with_one-Quiet _))

  pub type_args-quiet :
      {Fault : Type 0} (ip1 ip2 : Option String) (types : List String)
      → type_args text {Fault = Fault} ip1 ip2 ≡ done (parsed types)
      → (field_of "enabled" types ≡ none) × (is_even types ≡ true)
  unfolding type_args
  type_args-quiet {Fault = Fault} none none types e = from e (refl, refl)
    where
      from :
          {p : Parsed}
          → ◌≡◌ {A = Ended Fault Parsed} (done p) (done (parsed types))
          → IsQuiet p
          → (field_of "enabled" types ≡ none) × (is_even types ≡ true)
      from {p = p} e g = let same : p ≡ parsed types = cc in rw same at g
  type_args-quiet {Fault = Fault} none (some ip) types e = cc
  type_args-quiet {Fault = Fault} (some ip) none types e =
      let same : one_arg text ip ≡ parsed types = cc in rw same at (one_arg-Quiet ip).quiet
  type_args-quiet {Fault = Fault} (some ip1) (some ip2) types e =
      let same : two_args text ip1 ip2 ≡ parsed types = cc in
      rw same at (two_args-Quiet ip1 ip2).quiet
