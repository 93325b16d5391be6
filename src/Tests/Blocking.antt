-- ===== src/Tests/Blocking.antt =====
-- The order of the suffixes, and the blocked addresses.
use mathlib.Core.List.{Perm}
use dnsliar_rs.Base.{String, ◌≡◌, refl, Bool, true, false, List, [], ◌∷◌, arith}
use dnsliar_rs.Base.Text.{str_eq}
use dnsliar_rs.Net.{IpAddr, show_ip}
use dnsliar_rs.Exec.{ok, ◌>>=◌}
use dnsliar_rs.Dns.{RecordType, RData}
use dnsliar_rs.Env.{on_world}
use dnsliar_rs.Resolver.{place, SortedRecords, Conn, resolve, sort_records}
use dnsliar_rs.Filtering.{order, up_from, filter_resolution}
use dnsliar_rs.Filtering.Order.{order-perm}
use dnsliar_rs.Filtering.Resolution.{filter_resolution-other}
use dnsliar_rs.Filtering.Blocking.{
  any_blocked, guarded, filter_resolution-steady, filter_resolution-unblocked,
}
use dnsliar_rs.Tests.Toy.{
  toy_types, toy_ip, toy_env, toy_hickory, toy_header, toy_data, bad_records, ip4,
}

order_test : order 7 ≡ 3 ∷ 4 ∷ 2 ∷ 5 ∷ 1 ∷ 6 ∷ 7 ∷ []
unfolding order
order_test = refl

order-perm_example : Perm (order 7) (up_from 1 7)
order-perm_example = order-perm 7 (omega arith) (omega arith)

abbrev names : List String
names = "www" ∷ "example" ∷ "com" ∷ []

abbrev start : Conn toy_types
start = record { header = toy_header; world = 0 }

-- The address that Redis blocks.
abbrev toy_blocked : IpAddr → Bool
toy_blocked ip = str_eq (show_ip toy_ip ip) "192.0.2.66"

abbrev bad_sorted : SortedRecords toy_types
bad_sorted = record { answer = bad_records; name_servers = []; soas = []; additional = [] }

-- The sink in place of the blocked answer.
abbrev bad_replaced : SortedRecords toy_types
bad_replaced = record {
  answer = record { name = "bad.example.net."; ttl = 3600; rdata = RData.a (ip4 1) } ∷ [];
  name_servers = [];
  soas = [];
  additional = [];
}

bad_test : resolve toy_hickory "bad.example.net." RecordType.a true start ≡ (ok bad_sorted, start)
unfolding resolve ◌>>=◌ sort_records place
bad_test = refl

filter_resolution-other_example :
    filter_resolution toy_env "one" "bad.example.net." RecordType.soa toy_data.sinks true start
    ≡ resolve toy_hickory "bad.example.net." RecordType.soa true start
filter_resolution-other_example =
    filter_resolution-other toy_env "one" "bad.example.net." RecordType.soa toy_data.sinks true
      start (λ p. cc) (λ p. cc)

filter_resolution-steady_example :
    filter_resolution toy_env "one" "bad.example.net." RecordType.a toy_data.sinks true start ≡ (
      guarded toy_env "one" "bad.example.net." RecordType.a toy_data.sinks toy_blocked true
          bad_sorted,
      start,
    )
filter_resolution-steady_example =
    filter_resolution-steady toy_env "one" "bad.example.net." RecordType.a toy_data.sinks
      toy_blocked true start start bad_sorted bad_test (record { reads = λ ip. refl })

replaced_test :
    (filter_resolution toy_env "one" "bad.example.net." RecordType.a toy_data.sinks true start).0
    ≡ ok bad_replaced
unfolding filter_resolution resolve ◌>>=◌ sort_records place on_world
replaced_test = refl

filter_resolution-unblocked_example : any_blocked toy_blocked bad_replaced.answer ≡ false
filter_resolution-unblocked_example =
    filter_resolution-unblocked toy_env "one" "bad.example.net." RecordType.a toy_data.sinks
      toy_blocked true start start bad_sorted bad_replaced bad_test (record { reads = λ ip. refl })
      refl refl replaced_test
