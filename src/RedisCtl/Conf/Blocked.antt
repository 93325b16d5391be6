-- ===== src/RedisCtl/Conf/Blocked.antt =====
-- `add_blocked_ips` of the tool, and what the daemon then says of an answered address.
use dnsliar_rs.Base.{
  String, ◌≡◌, refl, sym, ap, ◌∙◌, Bool, ◌||◌, none, some, List, [], ◌∷◌, ◌++◌, All,
}
use dnsliar_rs.Base.Text.{eq_refl, ◌<>◌}
use dnsliar_rs.Net.{IpAddr, IpText, parse_ip, show_ip}
use dnsliar_rs.Exec.{Reply, value}
use dnsliar_rs.Dns.{Types}
use dnsliar_rs.Env.{Env}
use dnsliar_rs.Filtering.Blocking.{Blocks}
use dnsliar_rs.RedisCtl.{done, success, code, ◌>>=◌, Connection}
use dnsliar_rs.RedisCtl.Feed.{contains}
use dnsliar_rs.RedisCtl.Conf.{set_key, first_not_ip, add_blocked_ips, remove_blocked_ips}
use dnsliar_rs.RedisCtl.Conf.Sets.{SharedSets, key_lem}

-- All the texts are addresses.
abbrev pub AreIps : IpText → List String → Type 0
AreIps text = All (λ ip. (addr : IpAddr) × (parse_ip text ip ≡ some addr))

first_not_ip-none :
    (text : IpText) (ips : List String) → AreIps text ips → first_not_ip text ips ≡ none
unfolding first_not_ip
first_not_ip-none text [] h = refl
first_not_ip-none text (ip ∷ ips) ((addr, e), h) = rw e (first_not_ip-none text ips h)

-- The first text that is no address, behind texts that are.
first_not_ip-some :
    (text : IpText) (before : List String) (bad : String) (after : List String)
    → AreIps text before
    → parse_ip text bad ≡ none
    → first_not_ip text (before ++ bad ∷ after) ≡ some bad
unfolding first_not_ip
first_not_ip-some text [] bad after h e = rw e refl
first_not_ip-some text (ip ∷ before) bad after ((addr, p), h) e =
    rw p (first_not_ip-some text before bad after h e)

module _ {World Fault : Type 0} (connection : Connection World Fault) (daemon_id : String) where
  -- When one of the texts is no address, neither `add_blocked_ips` nor `remove_blocked_ips` sends
  -- anything to Redis, also when addresses stand before that text: they print an error about the
  -- first such text, and exit with 65.
  pub blocked_ips-rejects :
      (text : IpText) (parse_error : String → String) (before : List String) (bad : String)
      (after : List String)
      → AreIps text before
      → parse_ip text bad ≡ none
      → (w : World)
      → (add_blocked_ips connection daemon_id text parse_error (before ++ bad ∷ after) w ≡ (
        done (code 65),
        connection.println ("Parsing error on '" <> (bad <> ("' : " <> parse_error bad))) w,
      ))
        × (remove_blocked_ips connection daemon_id text parse_error (before ++ bad ∷ after) w ≡ (
          done (code 65),
          connection.println ("Parsing error on '" <> (bad <> ("' : " <> parse_error bad))) w,
        ))
  unfolding add_blocked_ips ◌>>=◌
  blocked_ips-rejects text parse_error before bad after h e w =
      let first = first_not_ip-some text before bad after h e in
      (rw first refl, unfold remove_blocked_ips in rw first refl)

module _ {T : Types} (env : Env T) (connection : Connection T.World T.Fault)
    (shared : SharedSets env connection) (daemon_id : String) where
  -- What the set says, where the daemon is told about an address.
  was :
      (blocked : IpAddr → Bool) (ip : IpAddr) (w : T.World)
      → env.redis.sismember ("DBL;blocked-ips;" <> daemon_id) (show_ip env.ip ip) w
        ≡ (value (blocked ip), w)
      → shared.has w ("DBL;blocked-ips;" <> daemon_id) (show_ip env.ip ip) ≡ blocked ip
  was blocked ip w e =
      same (sym (shared.sismember_has ("DBL;blocked-ips;" <> daemon_id) (show_ip env.ip ip) w) ∙ e)
    where
      same : {a b : Bool} → ◌≡◌ {A = Reply T.Fault Bool × T.World} (value a, w) (value b, w) → a ≡ b
      same h = cc

  -- The tool and the daemon share one Redis, which answers, and no other client changes it. Then
  -- `add_blocked_ips` of one text or more, all addresses, exits with success, and after it Redis
  -- tells the daemon with the same id that an address is blocked exactly when it was blocked
  -- before, or when the text that the daemon writes for it is one of the texts given, letter by
  -- letter.
  pub add_blocked_ips-Blocks :
      (parse_error : String → String) (first : String) (rest : List String)
      → AreIps env.ip (first ∷ rest)
      → (blocked : IpAddr → Bool) (w : T.World) → Blocks env daemon_id blocked w
      → (w' : T.World) × (add_blocked_ips connection daemon_id env.ip parse_error (first ∷ rest) w
          ≡ (done success, w'))
        × Blocks env daemon_id (λ ip. contains (first ∷ rest) (show_ip env.ip ip) || blocked ip) w'
  unfolding add_blocked_ips ◌>>=◌
  add_blocked_ips-Blocks parse_error first rest h blocked w b =
      let (n, w1, added, has1) = shared.sadd_has (set_key "blocked-ips" daemon_id) first rest w in
      let text = connection.show_usize n <> " IP(s) added to the IP blacklist" in
      (
        connection.println text w1,
        rw (first_not_ip-none env.ip (first ∷ rest) h, added) refl,
        record {
          reads = λ ip.
              let key = "DBL;blocked-ips;" <> daemon_id in
              let member = show_ip env.ip ip in
              let kind : set_key "blocked-ips" daemon_id ≡ ("DBL;blocked-ips;" <> daemon_id) =
                key_lem "blocked-ips" daemon_id in
              shared.sismember_has key member (connection.println text w1)
              ∙ ap (λ (o : Bool). (value o, connection.println text w1))
                  (shared.println_has text key member w1
                    ∙ has1 key member
                    ∙ rw (kind, eq_refl key, was blocked ip w (b.reads ip)) refl);
        },
      )
