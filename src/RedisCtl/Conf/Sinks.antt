-- ===== src/RedisCtl/Conf/Sinks.antt =====
-- `set_sinks` of the tool, and `setup_filtering` of the daemon after it.
use dnsliar_rs.Base.{
  String, ◌≡◌, refl, sym, ap, ◌∙◌, false, Option, none, some, List, [], ◌∷◌, ◌⊎◌, inl, inr,
  if◌then◌else◌, Bool-cases, arith,
}
use dnsliar_rs.Base.Text.{str_eq, eq_refl, ◌<>◌}
use dnsliar_rs.Net.{Ipv4Addr, Ipv6Addr, IpTextLaws}
use dnsliar_rs.Exec.{ok, value, ◌>>=◌ as ◌>>>=◌}
use dnsliar_rs.Dns.{Types}
use dnsliar_rs.Env.{Env}
use dnsliar_rs.Config.{check_sinks_ips, filtering_data, setup_filtering}
use dnsliar_rs.Config.Sinks.{check_sinks_ips_comm}
use dnsliar_rs.RedisCtl.{done, success, ◌>>=◌, Connection}
use dnsliar_rs.RedisCtl.Feed.{contains}
use dnsliar_rs.RedisCtl.Conf.{set_key, set_sinks}
use dnsliar_rs.RedisCtl.Conf.Sets.{SharedSets, two_lem, key_lem, kinds_lem, str_eq-true}

module _ {T : Types} (env : Env T) (connection : Connection T.World T.Fault)
    (shared : SharedSets env connection) (daemon_id : String) where
  -- What is left in the set of the sinks, and in each other one.
  set_sinks_lem :
      (x y : String) (w : T.World)
      → (w' : T.World) × (set_sinks connection daemon_id (x ∷ y ∷ []) w ≡ (done success, w'))
        × ((k m : String)
            → shared.has w' k m ≡ (
                if str_eq k (set_key "sinks" daemon_id)
                then contains (x ∷ y ∷ []) m
                else shared.has w k m))
  unfolding set_sinks ◌>>=◌
  set_sinks_lem x y w =
      let key = set_key "sinks" daemon_id in
      let (w1, deleted, has1) = shared.del_has key w in
      let (n, w2, added, has2) = shared.sadd_has key x (y ∷ []) w1 in
      let text = connection.show_usize n <> " sinks added to the daemon conf" in
      (
        connection.println text w2,
        rw (deleted, added) refl,
        λ k m. shared.println_has text k m w2 ∙ has2 k m ∙ ground (arith, has1 k m),
      )

  module _ (laws : IpTextLaws env.ip) where
    ordered :
        (x y : String) (i4 : Ipv4Addr) (i6 : Ipv6Addr)
        → env.ip.parse_v4 x ≡ some i4
        → env.ip.parse_v6 y ≡ some i6
        → check_sinks_ips {F = T.Fault} env.ip (x ∷ y ∷ []) ≡ ok (some (i4, i6))
    unfolding check_sinks_ips
    ordered x y i4 i6 e4 e6 = rw (e4, e6) refl

    sinks_of :
        (x y : String) (i4 : Ipv4Addr) (i6 : Ipv6Addr)
        → env.ip.parse_v4 x ≡ some i4
        → env.ip.parse_v6 y ≡ some i6
        → (l : List String) → (l ≡ x ∷ y ∷ []) ⊎ (l ≡ y ∷ x ∷ [])
        → check_sinks_ips {F = T.Fault} env.ip l ≡ ok (some (i4, i6))
    sinks_of x y i4 i6 e4 e6 l (inl p) = rw p (ordered x y i4 i6 e4 e6)
    sinks_of x y i4 i6 e4 e6 l (inr p) =
        rw p (check_sinks_ips_comm env.ip laws y x ∙ ordered x y i4 i6 e4 e6)

    fetch_lem :
        (x y : String) (i4 : Ipv4Addr) (i6 : Ipv6Addr)
        → env.ip.parse_v4 x ≡ some i4
        → env.ip.parse_v6 y ≡ some i6
        → (l filters : List String) (w : T.World) → (l ≡ x ∷ y ∷ []) ⊎ (l ≡ y ∷ x ∷ [])
        → env.redis.smembers ("DBL;sinks;" <> daemon_id) w ≡ (value l, w)
        → env.redis.smembers ("DBL;filters;" <> daemon_id) w ≡ (value filters, w)
        → setup_filtering env daemon_id w
          ≡ (ok (filtering_data env daemon_id (i4, i6) (some filters)), w)
    unfolding setup_filtering ◌>>>=◌
    fetch_lem x y i4 i6 e4 e6 l filters w (inl p) s f = rw (s, p, e4, e6, f) refl
    fetch_lem x y i4 i6 e4 e6 l filters w (inr p) s f =
        rw (s, p, sinks_of x y i4 i6 e4 e6 (y ∷ x ∷ []) (inr refl), f) refl

    apart :
        (x y : String) (i4 : Ipv4Addr) (i6 : Ipv6Addr)
        → env.ip.parse_v4 x ≡ some i4
        → env.ip.parse_v6 y ≡ some i6
        → x ≡ y
        → ⊥
    apart x y i4 i6 e4 e6 same =
        none-ne-some (sym (laws.v4_not_v6 x i4 e4) ∙ ap env.ip.parse_v6 same ∙ e6)
      where
        none-ne-some : ◌≡◌ {A = Option Ipv6Addr} none (some i6) → ⊥
        none-ne-some h = cc

    apart_test : (x y : String) → (x ≡ y → ⊥) → str_eq x y ≡ false
    apart_test x y ne = elim (Bool-cases (str_eq x y)) [
      | inl e ↦ absurd (ne (str_eq-true x y e))
      | inr e ↦ e
    ]

    -- What SMEMBERS lists where the set has been made of two texts: the two, in some order.
    listed :
        (a b : String) (w : T.World)
        → (a ≡ b → ⊥)
        → ((m : String) → shared.has w ("DBL;sinks;" <> daemon_id) m ≡ contains (a ∷ b ∷ []) m)
        → (l : List String) × (env.redis.smembers ("DBL;sinks;" <> daemon_id) w ≡ (value l, w))
          × ((l ≡ a ∷ b ∷ []) ⊎ (l ≡ b ∷ a ∷ []))
    listed a b w ne h =
        let (l, e, d, c) = shared.smembers_has ("DBL;sinks;" <> daemon_id) w in
        (l, e, two_lem a b l (apart_test a b ne) d (λ m. c m ∙ h m))

    swapped :
        {a b : String} {l : List String}
        → (l ≡ a ∷ b ∷ []) ⊎ (l ≡ b ∷ a ∷ [])
        → (l ≡ b ∷ a ∷ []) ⊎ (l ≡ a ∷ b ∷ [])
    swapped (inl p) = inr p
    swapped (inr p) = inl p

    set_sinks_either :
        (x y a b : String) (i4 : Ipv4Addr) (i6 : Ipv6Addr) (w : T.World)
        → env.ip.parse_v4 x ≡ some i4
        → env.ip.parse_v6 y ≡ some i6
        → (a ≡ b → ⊥)
        → ((l : List String)
            → (l ≡ a ∷ b ∷ []) ⊎ (l ≡ b ∷ a ∷ [])
            → (l ≡ x ∷ y ∷ []) ⊎ (l ≡ y ∷ x ∷ []))
        → (w' : T.World) × (filters : List String) × (set_sinks connection daemon_id (a ∷ b ∷ []) w
            ≡ (done success, w'))
          × ((m : String) → contains filters m ≡ shared.has w ("DBL;filters;" <> daemon_id) m)
          × (setup_filtering env daemon_id w'
              ≡ (ok (filtering_data env daemon_id (i4, i6) (some filters)), w'))
    set_sinks_either x y a b i4 i6 w e4 e6 ne orders =
        let (w', run, has') = set_sinks_lem a b w in
        let sinks_key : set_key "sinks" daemon_id ≡ ("DBL;sinks;" <> daemon_id) =
          key_lem "sinks" daemon_id in
        let (l, s, two) = listed a b w' ne (λ m.
          has' ("DBL;sinks;" <> daemon_id) m
          ∙ rw (sinks_key, eq_refl ("DBL;sinks;" <> daemon_id)) refl) in
        let (filters, f, d, c) = shared.smembers_has ("DBL;filters;" <> daemon_id) w' in
        (
          w',
          filters,
          run,
          λ m.
              c m
              ∙ has' ("DBL;filters;" <> daemon_id) m
              ∙ rw (sinks_key, kinds_lem "DBL;filters;" "DBL;sinks;" daemon_id refl) refl,
          fetch_lem x y i4 i6 e4 e6 l filters w' (orders l two) s f,
        )

    -- The tool and the daemon share one Redis, which answers, and no other client changes it. Then
    -- after `set_sinks` of the text of an IPv4 and the text of an IPv6 address, in either order and
    -- whatever the set held before, which exits with success, `setup_filtering` of the daemon
    -- with the same id gets these two addresses, and the filters that were there: it returns them
    -- both, or nothing when there is no filter.
    pub set_sinks-setup_filtering :
        (x y : String) (i4 : Ipv4Addr) (i6 : Ipv6Addr)
        → env.ip.parse_v4 x ≡ some i4
        → env.ip.parse_v6 y ≡ some i6
        → (sinks : List String) → (sinks ≡ x ∷ y ∷ []) ⊎ (sinks ≡ y ∷ x ∷ [])
        → (w : T.World)
        → (w' : T.World) × (filters : List String) × (set_sinks connection daemon_id sinks w
            ≡ (done success, w'))
          × ((m : String) → contains filters m ≡ shared.has w ("DBL;filters;" <> daemon_id) m)
          × (setup_filtering env daemon_id w'
              ≡ (ok (filtering_data env daemon_id (i4, i6) (some filters)), w'))
    set_sinks-setup_filtering x y i4 i6 e4 e6 sinks (inl p) w =
        rw p (set_sinks_either x y x y i4 i6 w e4 e6 (apart x y i4 i6 e4 e6) (λ l o. o))
    set_sinks-setup_filtering x y i4 i6 e4 e6 sinks (inr p) w = rw p (
        set_sinks_either x y y x i4 i6 w e4 e6 (λ q. apart x y i4 i6 e4 e6 (sym q))
          (λ l o. swapped o))
