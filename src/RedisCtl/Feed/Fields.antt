-- ===== src/RedisCtl/Feed/Fields.antt =====
-- The fields that `add_to_filter` writes, against the lies of the daemon.
use mathlib.Core.List.{append-nil, append_assoc}
use dnsliar_rs.Base.{
  ℕ, String, ◌≡◌, refl, ap, ◌∙◌, Option, none, some, List, [], ◌∷◌, ◌++◌, Bool-cases, inl, inr,
}
use dnsliar_rs.Base.Text.{str_eq}
use dnsliar_rs.Net.{Ipv4Addr, Ipv6Addr, IpAddr, v4, v6, IpText, IpTextLaws, parse_ip}
use dnsliar_rs.Dns.{Types}
use dnsliar_rs.Env.{Env}
use dnsliar_rs.RedisCtl.{done, Tool, return, print, ◌>>=◌, ◌>>◌, Connection}
use dnsliar_rs.RedisCtl.Rules.{rule_fields}
use dnsliar_rs.RedisCtl.Rules.Add.{
  ReadsBack, TypeTexts, IsAnswered, GoodFields, GoodFields-IsAnswered, ones-GoodField,
}
use dnsliar_rs.RedisCtl.Rules.Answered.{ones, IsShown, parse_ip-IsShown, rule_fields-Good}
use dnsliar_rs.RedisCtl.Feed.Single.{shown_args, ip_args, or_nil, report_ip, feed_ips, feed_args}

-- All that a line gives, in order.
abbrev pub line_args : IpText → List String → List String
line_args text [] = []
line_args text (ip ∷ ips) = or_nil (ip_args text ip) ++ line_args text ips

-- With the defaults where nothing follows the domain.
abbrev pub defaulted : IpText → List String → List String
defaulted text [] = "A" ∷ "1" ∷ "AAAA" ∷ "1" ∷ []
defaulted text (ip ∷ ips) = line_args text (ip ∷ ips)

module _ {World Fault : Type 0} (connection : Connection World Fault) (text : IpText) where
  -- The report leaves the arguments to the rest of the loop.
  after_report :
      {A : Type 0} (line_cnt : ℕ) (o : Option (List String)) (m : Tool World Fault A) (w : World)
      → (w' : World) × ((report_ip connection text line_cnt o >> m) w ≡ m w')
  unfolding ◌>>=◌ print
  after_report line_cnt none m w = (_, refl)
  after_report line_cnt (some args) m w = (_, refl)

  feed_ips_lem :
      (line_cnt : ℕ) (ips args : List String) (w : World)
      → (feed_ips connection text line_cnt ips args w).0 ≡ done (args ++ line_args text ips)
  unfolding feed_ips
  feed_ips_lem line_cnt [] args w = unfold return in rw append-nil refl
  feed_ips_lem line_cnt (ip ∷ ips) args w =
      let (w', e) =
        after_report line_cnt (ip_args text ip)
          (feed_ips connection text line_cnt ips (args ++ or_nil (ip_args text ip))) w in
      rw e (
        feed_ips_lem line_cnt ips (args ++ or_nil (ip_args text ip)) w'
        ∙ ap done (append_assoc args (or_nil (ip_args text ip)) (line_args text ips)))

  feed_args_lem :
      (line_cnt : ℕ) (ips args : List String) (w : World)
      → (feed_args connection text line_cnt ips args w).0 ≡ done (args ++ defaulted text ips)
  unfolding feed_args ◌>>=◌
  feed_args_lem line_cnt [] args w = refl
  feed_args_lem line_cnt (ip ∷ ips) args w = rw (feed_ips_lem line_cnt (ip ∷ ips) args w) refl

module _ {T : Types} (env : Env T) (sinks : Ipv4Addr × Ipv6Addr) (texts : TypeTexts env.hickory)
    (laws : IpTextLaws env.ip) (back : ReadsBack env.ip) where
  shown_args-Good :
      (o : Option IpAddr)
      → ((ip : IpAddr) → o ≡ some ip → IsShown env sinks texts laws back ip)
      → GoodFields env sinks (or_nil (shown_args env.ip o))
  shown_args-Good none h = tt
  shown_args-Good (some (v4 ip)) h = (h (v4 ip) refl, tt)
  shown_args-Good (some (v6 ip)) h = (h (v6 ip) refl, tt)

  -- The fields of one type in front of others; each gives two arguments or none.
  shown_args-append :
      (o : Option IpAddr) (rest : List String)
      → GoodFields env sinks (or_nil (shown_args env.ip o))
      → GoodFields env sinks rest
      → GoodFields env sinks (or_nil (shown_args env.ip o) ++ rest)
  shown_args-append none rest g h = h
  shown_args-append (some (v4 ip)) rest g h = (g.0, h)
  shown_args-append (some (v6 ip)) rest g h = (g.0, h)

  ip_args-append :
      (ip : String) (rest : List String)
      → GoodFields env sinks rest
      → GoodFields env sinks (or_nil (ip_args env.ip ip) ++ rest)
  unfolding ip_args
  ip_args-append ip rest h = elim (Bool-cases (str_eq ip "A")) [
    | inl a ↦ rw a (ones-GoodField env sinks "A", h)
    | inr a ↦ elim (Bool-cases (str_eq ip "AAAA")) [
      | inl b ↦ rw (a, b) (ones-GoodField env sinks "AAAA", h)
      | inr b ↦
          rw (a, b)
            (shown_args-append (parse_ip env.ip ip) rest
              (shown_args-Good _ (parse_ip-IsShown env sinks texts laws back ip)) h)
    ]
  ]

  line_args-Good : (ips : List String) → GoodFields env sinks (line_args env.ip ips)
  line_args-Good [] = tt
  line_args-Good (ip ∷ ips) = ip_args-append ip (line_args env.ip ips) (line_args-Good ips)

  defaulted-Good : (ips : List String) → GoodFields env sinks (defaulted env.ip ips)
  defaulted-Good [] = ones env sinks texts laws back "A" "AAAA"
  defaulted-Good (ip ∷ ips) = line_args-Good (ip ∷ ips)

  -- Whatever follows the domain on a line of the file, the arguments that `add_to_filter` gives to
  -- `hset` for that line are found, after the reports of the parsing errors, and are such that for
  -- a question of type A or AAAA each value that the daemon finds among the fields gives a lie, a
  -- record of the type asked. This needs that no text is both an IPv4 and an IPv6 address, that an
  -- address that was read is written so that it is read again, and that hickory writes the two
  -- types as "A" and "AAAA".
  pub feed_args-IsAnswered :
      {World Fault : Type 0} (connection : Connection World Fault) (line_cnt : ℕ)
      (ips : List String) (date src : String) (w : World)
      → (args : List String) × ((feed_args connection env.ip line_cnt ips
            (rule_fields date src)
            w).0
          ≡ done args)
        × IsAnswered env sinks args
  feed_args-IsAnswered connection line_cnt ips date src w = (
    rule_fields date src ++ defaulted env.ip ips,
    feed_args_lem connection env.ip line_cnt ips (rule_fields date src) w,
    GoodFields-IsAnswered env sinks (rule_fields date src ++ defaulted env.ip ips)
        (rule_fields-Good env sinks texts laws back date src _ (defaulted-Good ips)),
  )
