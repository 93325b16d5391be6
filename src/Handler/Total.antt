-- ===== src/Handler/Total.antt =====
-- Panics in the handler of a request.
use dnsliar_rs.Handler.Errors.{answer_error-sends, error_code}
use dnsliar_rs.Exec.{ok-injective}
use dnsliar_rs.Base.{
  ap, ◌≡◌, ◌≢◌, ◌≤◌, refl, Bool, true, String, Option, none, some, inl, inr, length,
}
use dnsliar_rs.Errors.{
  from_proto_error, DnsBlrsErrorKind, invalid_op_code, invalid_message_type, proto, io,
  socket_binding,
}
use dnsliar_rs.Exec.{lift, Outcome, ok, err, panic, Exec, Reply, value, fault, to_outcome, ◌>>=◌}
use dnsliar_rs.Exec.Safe.{
  Safe-bind_of, Safe, IsHandled, Safe-bind, Safe-lift, Safe-if, Safe-raise, Safe-await, extern-ne,
}
use dnsliar_rs.Dns.{ResponseCode, Types, RecordType, Request, Header, HickoryLaws}
use dnsliar_rs.Resolver.{Conn}
use dnsliar_rs.Resolver.Total.{resolve-Safe}
use dnsliar_rs.Env.{Env}
use dnsliar_rs.Filtering.{Data, FilteringConfig, labels}
use dnsliar_rs.Filtering.Resolution.{filter_resolution-Safe}
use dnsliar_rs.Filtering.Total.{filter-Safe, write_stats_request-Safe}
use dnsliar_rs.Handler.{
  send_or_crash, or_answer_error, is_type_query, is_op_query, filter_with, with_last, IpAddr,
  with_header, filter_by_type, records_for, answer_query, try_handle_request, handle_request,
  error_message,
}

-- The filtering is on only with data to filter by.
abbrev pub IsValid : FilteringConfig → Type 0
IsValid config = config.is_filtering ≡ true → config.filtering_data ≢ none

op_code-ne : {F : Type 0} → ◌≢◌ {A = DnsBlrsErrorKind F} invalid_op_code socket_binding
op_code-ne p = cc

message_type-ne : {F : Type 0} → ◌≢◌ {A = DnsBlrsErrorKind F} invalid_message_type socket_binding
message_type-ne p = cc

module _ {T : Types} (env : Env T) (laws : HickoryLaws env.hickory) (daemon_id : String) where
  Safe-with_header :
      {A : Type 0} (header : Header) (m : Exec T.Fault (Conn T) A)
      → Safe m
      → Safe (with_header env header m)
  unfolding with_header
  Safe-with_header header m h = record {
    at = λ w. go _ _ (h.at (record { header = header; world = w }));
  }
    where
      go :
          {A : Type 0} (r : Outcome T.Fault A) (last : Header)
          → IsHandled r
          → IsHandled (with_last r last)
      go (ok a) last q = tt
      go (err e) last q = q
      go panic last q = q

  filter_by_type-Safe :
      (d : Data) (query_name : T.Name) (query_type : RecordType) (src_ip : IpAddr) (dnssec : Bool)
      → length (labels (env.hickory.name_to_string query_name)) ≤ 255
      → Safe (filter_by_type env daemon_id d query_name query_type src_ip dnssec)
  unfolding filter_by_type
  filter_by_type-Safe d query_name RecordType.a src_ip dnssec short =
      filter-Safe env daemon_id query_name RecordType.a src_ip d.sinks (inl refl) d.filters dnssec
        laws short
  filter_by_type-Safe d query_name RecordType.aaaa src_ip dnssec short =
      filter-Safe env daemon_id query_name RecordType.aaaa src_ip d.sinks (inr refl) d.filters
        dnssec laws short
  filter_by_type-Safe d query_name _ src_ip dnssec short =
      filter_resolution-Safe env laws daemon_id query_name _ d.sinks dnssec

  module _ (config : FilteringConfig) (valid : IsValid config) where
    records_for-Safe :
        (query_name : T.Name) (query_type : RecordType) (src_ip : IpAddr) (dnssec : Bool)
        → length (labels (env.hickory.name_to_string query_name)) ≤ 255
        → Safe (records_for env daemon_id config query_name query_type src_ip dnssec)
    unfolding records_for
    records_for-Safe query_name query_type src_ip dnssec short =
        Safe-if config.is_filtering _ _ (λ on. filter_with-Safe config.filtering_data (valid on))
          (λ _. resolve-Safe laws query_name query_type dnssec)
      where
        filter_with-Safe :
            (o : Option Data)
            → o ≢ none
            → Safe (filter_with env daemon_id o query_name query_type src_ip dnssec)
        filter_with-Safe none h = absurd (h refl)
        filter_with-Safe (some d) h =
            filter_by_type-Safe d query_name query_type src_ip dnssec short

    -- The name in a request, if it has one, has at most 255 labels; a name on the wire has 127.
    abbrev IsShort : Request T → Type 0
    IsShort request =
        (name : T.Name)
        → request.query_name ≡ value name
        → length (labels (env.hickory.name_to_string name)) ≤ 255

    named-Safe :
        (reply : Reply T.Fault T.Name)
        → ((name : T.Name)
            → reply ≡ value name
            → length (labels (env.hickory.name_to_string name)) ≤ 255)
        → Safe {S = T.World} (lift (to_outcome from_proto_error reply))
    named-Safe (value name) h = Safe-lift _ tt
    named-Safe (fault f) h = Safe-lift _ (extern-ne (proto f))

    value_of :
        (reply : Reply T.Fault T.Name) (w : T.World) {name : T.Name}
        → (lift (to_outcome from_proto_error reply) w).0 ≡ ok name
        → reply ≡ value name
    unfolding lift
    value_of (value n) w h = ap value (ok-injective h)
    value_of (fault f) w h = cc

    answer_query-Safe :
        (request : Request T) → IsShort request → Safe (answer_query env daemon_id config request)
    unfolding answer_query
    answer_query-Safe request short =
        Safe-bind_of _ _ (named-Safe request.query_name short) (λ w name named.
          Safe-bind _ _ (write_stats_request-Safe env daemon_id request.src_ip) (λ _.
            Safe-bind _ _
              (Safe-with_header _ _ (
                records_for-Safe name request.query_type request.src_ip _
                  (short name (value_of request.query_name w named))))
              (λ p. Safe-await _ _ (λ f. extern-ne (io f)))))

    try_handle_request-Safe :
        (request : Request T)
        → IsShort request
        → Safe (try_handle_request env daemon_id config request)
    unfolding try_handle_request
    try_handle_request-Safe request short =
        Safe-if (is_op_query request.op_code) _ _
          (λ _.
            Safe-if (is_type_query request.message_type) _ _ (λ _. answer_query-Safe request short)
              (λ _. Safe-raise _ message_type-ne))
          (λ _. Safe-raise _ op_code-ne)

    -- An error of a safe call is answered, if the answer can be sent.
    or_answer_error-ok :
        (request : Request T)
        → ((code : ResponseCode) (w : T.World)
            → (info : T.ResponseInfo) × ((env.hickory.send_response
                  (error_message env request code)
                  w).0
                ≡ value info))
        → (r : Outcome T.Fault T.ResponseInfo) (w : T.World) → IsHandled r
        → (info : T.ResponseInfo) × ((or_answer_error env request r w).0 ≡ ok info)
    unfolding ◌>>=◌
    or_answer_error-ok request sends (ok info) w h = (info, refl)
    or_answer_error-ok request sends (err e) w h =
        let (info, sent) = sends (error_code e.kind) w in
        (info, rw (answer_error-sends env request e.kind h) (unfold send_or_crash in rw sent refl))
    or_answer_error-ok request sends panic w h = absurd h

    -- Whatever Redis and the forwarders answer, a request is answered and the handler does not panic,
    -- provided that the shared configuration is valid, that a name has at most 255 labels, that lookups
    -- return typed records, and that a message without records can be sent.
    pub handle_request_total :
        (request : Request T) (w : T.World)
        → IsShort request
        → ((code : ResponseCode) (w' : T.World)
            → (info : T.ResponseInfo) × ((env.hickory.send_response
                  (error_message env request code)
                  w').0
                ≡ value info))
        → (info : T.ResponseInfo) × ((handle_request env daemon_id config request w).0 ≡ ok info)
    unfolding handle_request
    handle_request_total request w short sends =
        or_answer_error-ok request sends _ _ ((try_handle_request-Safe request short).at w)
