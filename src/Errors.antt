-- ===== src/Errors.antt =====
-- dnsblrsd/src/errors.rs: the daemon's error type. `Fault` stands for the error values of the
-- external crates, which the daemon carries and prints and never inspects.
pub data ExternCrateErrorKind (Fault : Type 0) : Type 0 where
  redis : Fault → ExternCrateErrorKind Fault
  io : Fault → ExternCrateErrorKind Fault
  resolver : Fault → ExternCrateErrorKind Fault
  system_time : Fault → ExternCrateErrorKind Fault
  proto : Fault → ExternCrateErrorKind Fault

pub data DnsBlrsErrorKind (Fault : Type 0) : Type 0 where
  invalid_op_code : DnsBlrsErrorKind Fault
  invalid_message_type : DnsBlrsErrorKind Fault
  invalid_rule : DnsBlrsErrorKind Fault
  socket_binding : DnsBlrsErrorKind Fault
  extern_crate_error : ExternCrateErrorKind Fault → DnsBlrsErrorKind Fault

pub record DnsBlrsError (Fault : Type 0) : Type 0 where
  pub kind : DnsBlrsErrorKind Fault

module _ {Fault : Type 0} where
  abbrev pub from_kind : DnsBlrsErrorKind Fault → DnsBlrsError Fault
  from_kind kind = record { kind = kind }

  abbrev pub from_redis_error : Fault → DnsBlrsError Fault
  from_redis_error err = record { kind = extern_crate_error (redis err) }

  abbrev pub from_system_time_error : Fault → DnsBlrsError Fault
  from_system_time_error err = record { kind = extern_crate_error (system_time err) }

  abbrev pub from_resolve_error : Fault → DnsBlrsError Fault
  from_resolve_error err = record { kind = extern_crate_error (resolver err) }

  abbrev pub from_proto_error : Fault → DnsBlrsError Fault
  from_proto_error err = record { kind = extern_crate_error (proto err) }

  abbrev pub from_io_error : Fault → DnsBlrsError Fault
  from_io_error err = record { kind = extern_crate_error (io err) }
