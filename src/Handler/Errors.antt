-- ===== src/Handler/Errors.antt =====
-- How requests are answered when something is wrong with them, or goes wrong.
use dnsliar_rs.Base.{sym, ap₂, ◌∙◌, ◌&&◌, ◌≡◌, ◌≢◌, refl, true, false, String, inl, inr, Bool-cases}
use dnsliar_rs.Errors.{
  DnsBlrsErrorKind, invalid_op_code, invalid_message_type, invalid_rule, socket_binding,
  extern_crate_error,
}
use dnsliar_rs.Exec.{◌>>=◌}
use dnsliar_rs.Dns.{Types, ResponseCode, Request}
use dnsliar_rs.Env.{Env}
use dnsliar_rs.Filtering.{FilteringConfig}
use dnsliar_rs.Handler.{
  is_op_query, is_type_query, error_message, send_or_crash, answer_error, handle_request,
}

-- What the client is told of an error: REFUSED for what it asked wrongly, SERVFAIL for the rest.
abbrev pub error_code : {F : Type 0} → DnsBlrsErrorKind F → ResponseCode
error_code invalid_op_code = ResponseCode.refused
error_code invalid_message_type = ResponseCode.refused
error_code _ = ResponseCode.serv_fail

true-ne-false : true ≡ false → ⊥
true-ne-false p = cc

module _ {T : Types} (env : Env T) (request : Request T) where
  pub answer_error-sends :
      (kind : DnsBlrsErrorKind T.Fault)
      → kind ≢ socket_binding
      → answer_error env request kind
        ≡ send_or_crash env (error_message env request (error_code kind))
  unfolding answer_error
  answer_error-sends invalid_op_code h = refl
  answer_error-sends invalid_message_type h = refl
  answer_error-sends invalid_rule h = refl
  answer_error-sends (extern_crate_error e) h = refl
  answer_error-sends socket_binding h = absurd (h refl)

module _ {T : Types} (env : Env T) (daemon_id : String) (config : FilteringConfig)
    (request : Request T) where
  -- A message that is not a query is refused at once: neither Redis nor the forwarders are asked.
  pub handle_request-refuses :
      (w : T.World)
      → is_op_query request.op_code && is_type_query request.message_type ≡ false
      → handle_request env daemon_id config request w
        ≡ send_or_crash env (error_message env request ResponseCode.refused) w
  unfolding handle_request ◌>>=◌
  handle_request-refuses w h = elim (Bool-cases (is_op_query request.op_code)) [
    | inl op ↦ elim (Bool-cases (is_type_query request.message_type)) [
      | inl type ↦ absurd (true-ne-false (sym (ap₂ ◌&&◌ op type) ∙ h))
      | inr type ↦ rw (op, type) refl
    ]
    | inr op ↦ rw op refl
  ]
