-- ===== src/Config/Sinks.antt =====
-- The two sinks, and the data that `setup_filtering` makes.
use dnsliar_rs.Base.{
  String, ◌≡◌, refl, true, Option, none, some, List, [], ◌∷◌, length, arith, ◌==◌,
}
use dnsliar_rs.Net.{Ipv4Addr, Ipv6Addr, IpAddr, v4, v6, IpText, IpTextLaws, parse_ip}
use dnsliar_rs.Exec.Safe.{Safe, Safe-bind, Safe-pure, Safe-lift, Safe-if, IsHandled}
use dnsliar_rs.Dns.{Types}
use dnsliar_rs.Env.{Env}
use dnsliar_rs.Config.{
  check_sinks_ips, second_sink, members, fetch_filters, fetch_sinks, setup_filtering,
}

-- What the two readers make of one text.
data Family (o4 : Option Ipv4Addr) (o6 : Option Ipv6Addr) : Type 0 where
  is_v4 : (ip : Ipv4Addr) → o4 ≡ some ip → o6 ≡ none → Family o4 o6
  is_v6 : (ip : Ipv6Addr) → o4 ≡ none → o6 ≡ some ip → Family o4 o6
  neither : o4 ≡ none → o6 ≡ none → Family o4 o6

family :
    (o4 : Option Ipv4Addr) (o6 : Option Ipv6Addr)
    → ((ip : Ipv4Addr) → o4 ≡ some ip → o6 ≡ none)
    → Family o4 o6
family none none h = neither refl refl
family none (some ip) h = is_v6 ip refl refl
family (some ip) o6 h = is_v4 ip refl (h ip refl)

module _ {F : Type 0} (text : IpText) (laws : IpTextLaws text) where
  -- Redis keeps the sinks in a set, which has no order: `check_sinks_ips` makes the same of the two
  -- texts in either order, when no text is both an IPv4 and an IPv6 address.
  pub check_sinks_ips_comm :
      (x y : String) → check_sinks_ips {F = F} text (x ∷ y ∷ []) ≡ check_sinks_ips text (y ∷ x ∷ [])
  unfolding check_sinks_ips
  check_sinks_ips_comm x y = go (family _ _ (laws.v4_not_v6 x)) (family _ _ (laws.v4_not_v6 y))
    where
      go :
          Family (text.parse_v4 x) (text.parse_v6 x)
          → Family (text.parse_v4 y) (text.parse_v6 y)
          → check_sinks_ips {F = F} text (x ∷ y ∷ []) ≡ check_sinks_ips text (y ∷ x ∷ [])
      go (is_v4 i p q) (is_v4 j r s) = rw (p, r, q, s) refl
      go (is_v4 i p q) (is_v6 j r s) = rw (p, r, s) (rw p refl)
      go (is_v4 i p q) (neither r s) = rw (p, r, s) refl
      go (is_v6 i p q) (is_v4 j r s) = rw (p, q, r) (rw q refl)
      go (is_v6 i p q) (is_v6 j r s) = rw (p, q, r, s) (rw p refl)
      go (is_v6 i p q) (neither r s) = rw (p, q, r, s) refl
      go (neither p q) (is_v4 j r s) = rw (p, q, r) (rw q refl)
      go (neither p q) (is_v6 j r s) = rw (p, q, r, s) (rw p refl)
      go (neither p q) (neither r s) = rw (p, q, r, s) refl

module _ {T : Types} (env : Env T) (daemon_id : String) where
  pub members-Safe : (key : String) → Safe (members env daemon_id key)
  unfolding members
  members-Safe key = record { at = λ w. tt }

  sinks-two :
      (sinks : List String)
      → (length sinks == 2) ≡ true
      → (x : String) × (y : String) × (sinks ≡ x ∷ y ∷ [])
  sinks-two [] h = ground arith
  sinks-two (x ∷ []) h = ground arith
  sinks-two (x ∷ y ∷ []) h = (x, y, refl)
  sinks-two (x ∷ y ∷ z ∷ rest) h = ground arith

  check_sinks_ips-IsHandled :
      (x y : String) → IsHandled (check_sinks_ips {F = T.Fault} env.ip (x ∷ y ∷ []))
  unfolding check_sinks_ips
  check_sinks_ips-IsHandled x y = go (parse_ip env.ip x)
    where
      go : (o : Option IpAddr) → IsHandled (second_sink {F = T.Fault} env.ip o (some y))
      go none = tt
      go (some (v4 ip)) = tt
      go (some (v6 ip)) = tt

  fetch_filters-Safe : (o : Option (Ipv4Addr × Ipv6Addr)) → Safe (fetch_filters env daemon_id o)
  fetch_filters-Safe none = Safe-pure none
  fetch_filters-Safe (some sinks) = Safe-bind _ _ (members-Safe _) (λ filters. Safe-pure _)

  fetch_sinks-Safe : (o : Option (List String)) → Safe (fetch_sinks env daemon_id o)
  fetch_sinks-Safe none = Safe-pure none
  fetch_sinks-Safe (some sinks) =
      Safe-if (length sinks == 2) _ _
        (λ two.
          let (x, y, e) = sinks-two sinks two in
          Safe-bind _ _ (Safe-lift _ (rw e (check_sinks_ips-IsHandled x y))) fetch_filters-Safe)
        (λ _. Safe-pure none)

  -- `setup_filtering` does not panic, whatever Redis answers: neither `unwrap` meets `None`.
  pub setup_filtering-Safe : Safe (setup_filtering env daemon_id)
  unfolding setup_filtering
  setup_filtering-Safe = Safe-bind _ _ (members-Safe _) fetch_sinks-Safe
