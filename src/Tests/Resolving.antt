-- ===== src/Tests/Resolving.antt =====
-- Sorting the records of a lookup, and negative answers.
use mathlib.Core.List.{Perm}
use dnsliar_rs.Base.{◌≡◌, refl, true, none, [], ◌∷◌}
use dnsliar_rs.Exec.{ok, ◌>>=◌}
use dnsliar_rs.Dns.{RecordType, ResponseCode, RData}
use dnsliar_rs.Base.Text.{to_lowercase}
use dnsliar_rs.Resolver.{place, SortedRecords, Conn, new, sort_records, resolve}
use dnsliar_rs.Resolver.Partition.{all_records, sort_records-perm}
use dnsliar_rs.Resolver.Total.{sort_records_total}
use dnsliar_rs.Resolver.Answers.{resolve-fits, AnswerFits}
use dnsliar_rs.Resolver.Negative.{resolve-negative, negative_sections}
use dnsliar_rs.Tests.Toy.{toy_types, toy_hickory, toy_header, toy_record, alias_records, ip4}

-- The alias and its target answer, and the signature of another type is additional.
abbrev alias_sorted : SortedRecords toy_types
alias_sorted = record {
  answer =
      toy_record "www.example.net." (RData.cname "host.example.net.")
      ∷ toy_record "host.example.net." (RData.a (ip4 7))
      ∷ [];
  name_servers = [];
  soas = [];
  additional = toy_record "www.example.net." (RData.rrsig RecordType.cname "signature") ∷ [];
}

alias_sorted_test :
    sort_records toy_hickory "www.example.net." RecordType.a alias_records new ≡ ok alias_sorted
unfolding sort_records place to_lowercase
alias_sorted_test = refl

abbrev toy_conn : Conn toy_types
toy_conn = record { header = toy_header; world = 0 }

resolve_test :
    (resolve toy_hickory "www.example.net." RecordType.a true toy_conn).0 ≡ ok alias_sorted
unfolding resolve ◌>>=◌ sort_records place to_lowercase
resolve_test = refl

sort_records-perm_example : Perm (all_records alias_sorted) alias_records
sort_records-perm_example =
    sort_records-perm toy_hickory "www.example.net." RecordType.a alias_records alias_sorted_test

sort_records_total_example :
    (s : SortedRecords toy_types) × (sort_records toy_hickory "www.example.net." RecordType.a
        alias_records new
      ≡ ok s)
sort_records_total_example =
    sort_records_total toy_hickory "www.example.net." RecordType.a alias_records new
      (tt, (tt, (tt, tt)))

resolve-fits_example : AnswerFits toy_hickory "www.example.net." RecordType.a alias_sorted
resolve-fits_example =
    resolve-fits toy_hickory "www.example.net." RecordType.a true toy_conn resolve_test

resolve-negative_example :
    let (result, conn') = resolve toy_hickory "gone.example.net." RecordType.a true toy_conn in
    (result ≡ ok (negative_sections "gone.example.net." ResponseCode.serv_fail none none))
    × (conn'.header.response_code ≡ ResponseCode.no_error)
resolve-negative_example =
    resolve-negative toy_hickory "gone.example.net." RecordType.a true toy_conn
      ResponseCode.serv_fail none none refl
