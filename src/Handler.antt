-- ===== src/Handler.antt =====
-- dnsblrsd/src/handler.rs: what is done with one request. The logging is not modelled. The shared
-- configuration is read once for a request: it is the argument `config`.
pub mod Errors
pub mod Lies
pub mod Total
use dnsliar_rs.Base.{Bool, true, false, Option, none, some, List, [], ◌∷◌, String, if◌then◌else◌}
use dnsliar_rs.Net.{IpAddr, Ipv4Addr, Ipv6Addr}
use dnsliar_rs.Errors.{
  DnsBlrsError, DnsBlrsErrorKind, invalid_op_code, invalid_message_type, invalid_rule,
  socket_binding, extern_crate_error, from_kind, from_proto_error, from_io_error,
}
use dnsliar_rs.Exec.{
  Outcome, ok, err, panic, Exec, Reply, value, fault, to_outcome, pure, raise, crash, lift, await,
  ◌>>=◌, ◌>>◌,
}
use dnsliar_rs.Dns.{Types, RecordType, ResponseCode, OpCode, MessageType, Request, Header, Message}
use dnsliar_rs.Resolver.{SortedRecords, Conn, resolve}
use dnsliar_rs.Env.{Env}
use dnsliar_rs.RedisMod.{write_stats_request}
use dnsliar_rs.Filtering.{Data, FilteringConfig, filter, filter_resolution}

abbrev pub is_op_query : OpCode → Bool
is_op_query OpCode.query = true
is_op_query _ = false

abbrev pub is_type_query : MessageType → Bool
is_type_query MessageType.query = true
is_type_query MessageType.response = false

-- The header as the calls have left it, beside their result.
abbrev pub with_last : {F A : Type 0} → Outcome F A → Header → Outcome F (A × Header)
with_last (ok a) header = ok (a, header)
with_last (err e) header = err e
with_last panic header = panic

-- `expect` on a result
abbrev or_crash : {F A : Type 0} → Reply F A → Outcome F A
or_crash (value a) = ok a
or_crash (fault f) = panic

module _ {T : Types} where
  -- The message that answers a request with the records of a lookup.
  abbrev answer_message : Request T → Header → SortedRecords T → Message T
  answer_message request header sorted = record {
    request = request;
    edns = request.edns;
    header = header;
    answer = sorted.answer;
    name_servers = sorted.name_servers;
    soas = sorted.soas;
    additional = sorted.additional;
  }

module _ {T : Types} (env : Env T) where
  -- `Header::response_from_request`, not authoritative and with recursion.
  abbrev response_header : Request T → Header
  response_header request = record (env.hickory.response_from_request request) {
    authoritative = false;
    recursion_available = true;
  }

  abbrev pub wants_dnssec : Option T.Edns → Bool
  wants_dnssec none = false
  wants_dnssec (some edns) = env.hickory.dnssec_ok edns

  -- Calls that are lent a header of the caller's.
  unfoldable pub with_header :
      {A : Type 0} → Header → Exec T.Fault (Conn T) A → Exec T.Fault T.World (A × Header)
  with_header header m w =
      let (r, conn) = m (record { header = header; world = w }) in
      (with_last r conn.header, conn.world)

  -- The message that answers an error: no records, no EDNS.
  abbrev pub error_message : Request T → ResponseCode → Message T
  error_message request code = record {
    request = request;
    edns = none;
    header = record (response_header request) { response_code = code };
    answer = [];
    name_servers = [];
    soas = [];
    additional = [];
  }

  -- `send_response(..).await.expect(..)`
  unfoldable pub send_or_crash : Message T → Exec T.Fault T.World T.ResponseInfo
  send_or_crash message w =
      let (reply, w') = env.hickory.send_response message w in (or_crash reply, w')

  unfoldable pub answer_error :
      Request T → DnsBlrsErrorKind T.Fault → Exec T.Fault T.World T.ResponseInfo
  unfolding send_or_crash
  answer_error request invalid_op_code = send_or_crash (error_message request ResponseCode.refused)
  answer_error request invalid_message_type =
      send_or_crash (error_message request ResponseCode.refused)
  answer_error request invalid_rule = send_or_crash (error_message request ResponseCode.serv_fail)
  answer_error request (extern_crate_error e) =
      send_or_crash (error_message request ResponseCode.serv_fail)
  answer_error request socket_binding = crash

  abbrev pub or_answer_error :
      Request T → Outcome T.Fault T.ResponseInfo → Exec T.Fault T.World T.ResponseInfo
  or_answer_error request (ok info) = pure info
  or_answer_error request (err e) = answer_error request e.kind
  or_answer_error request panic = crash

  module _ (daemon_id : String) where
    -- With the filtering on: by the type of the query.
    unfoldable pub filter_by_type :
        Data → T.Name → RecordType → IpAddr → Bool → Exec T.Fault (Conn T) (SortedRecords T)
    filter_by_type d query_name RecordType.a src_ip dnssec =
        filter env daemon_id query_name RecordType.a src_ip d.sinks d.filters dnssec
    filter_by_type d query_name RecordType.aaaa src_ip dnssec =
        filter env daemon_id query_name RecordType.aaaa src_ip d.sinks d.filters dnssec
    filter_by_type d query_name query_type src_ip dnssec =
        filter_resolution env daemon_id query_name query_type d.sinks dnssec

    -- The `expect` on the filtering data is the panic.
    abbrev pub filter_with :
        Option Data → T.Name → RecordType → IpAddr → Bool → Exec T.Fault (Conn T) (SortedRecords T)
    filter_with none query_name query_type src_ip dnssec = crash
    filter_with (some d) query_name query_type src_ip dnssec =
        filter_by_type d query_name query_type src_ip dnssec

    -- The records to answer with.
    unfoldable pub records_for :
        FilteringConfig
        → T.Name
        → RecordType
        → IpAddr
        → Bool
        → Exec T.Fault (Conn T) (SortedRecords T)
    unfolding filter_by_type
    records_for config query_name query_type src_ip dnssec =
        if config.is_filtering
        then filter_with config.filtering_data query_name query_type src_ip dnssec
        else resolve env.hickory query_name query_type dnssec

    -- Past the two tests of the request.
    unfoldable pub answer_query : FilteringConfig → Request T → Exec T.Fault T.World T.ResponseInfo
    unfolding with_header records_for
    answer_query config request = do
      let header = response_header request
      query_name ← lift (to_outcome from_proto_error request.query_name)
      let dnssec = wants_dnssec request.edns
      write_stats_request env daemon_id request.src_ip
      (sorted, header') ←
          with_header header
            (records_for config query_name request.query_type request.src_ip dnssec)
      await from_io_error (env.hickory.send_response (answer_message request header' sorted))

    unfoldable pub try_handle_request :
        FilteringConfig → Request T → Exec T.Fault T.World T.ResponseInfo
    unfolding answer_query
    try_handle_request config request =
        if is_op_query request.op_code
        then if is_type_query request.message_type
          then answer_query config request
          else raise (from_kind invalid_message_type)
        else raise (from_kind invalid_op_code)

    unfoldable pub handle_request :
        FilteringConfig → Request T → Exec T.Fault T.World T.ResponseInfo
    unfolding try_handle_request answer_error
    handle_request config request w =
        let (result, w') = try_handle_request config request w in or_answer_error request result w'
