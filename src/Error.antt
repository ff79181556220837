-- ===== src/Error.antt =====
-- muxtls/src/error.rs: the errors of the runtime. A message is a constructor with the values that
-- the source formats into it.
use muxtls.Base.{ℕ, Option, List}
use muxtls.Proto.Frame.{ProtoError}

-- The fields that `Error::InvalidLimit` names.
pub data Field : Type 0 where
  drain_timeout max_frame_size max_open_streams max_queued_outbound_frames : Field
  max_control_frames max_inbound_connection_bytes max_outbound_connection_bytes : Field
  max_inbound_stream_bytes max_outbound_stream_bytes : Field

-- The reasons that it gives.
pub data Reason : Type 0 where
  drain_range one_frame_per_stream control_overflow control_minimum must_be_positive : Reason
  must_be_at_least must_be_at_most : ℕ → Reason
  must_not_exceed : Field → Reason

pub data Message : Type 0 where
  exceeded_receive_credit send_side_closed send_side_already_closed : Message
  closed_before_enqueue settings_must_be_first invalid_settings : Message
  credit_for_unopened stop_for_unopened data_after_fin mixed_apis value_too_large : Message
  data_for_unknown reset_for_unknown invalid_parity reused_stream_id : ℕ → Message
  stream_frame_after_close reset_after_close : ℕ → Message
  unexpected_stream_id : ℕ → ℕ → Message

pub data Limit : Type 0 where
  frame_size : ℕ → ℕ → Limit
  close_size : ℕ → ℕ → Limit
  outbound_stream_budget close_reason_too_large open_streams incoming_queue : Limit
  inbound_connection_bytes inbound_stream_bytes : Limit

-- What the code asks of certificates, and the durations of an endpoint.
pub data CertificateKind : Type 0 where
  custom_root client_root : CertificateKind

pub data Setting : Type 0 where
  handshake_timeout keepalive_interval idle_timeout : Setting

-- `foreign` is the text of another library's error; `no_usable_roots` has the first one, if any.
pub data ConfigMessage : Type 0 where
  no_client_certificate no_server_certificate no_certificates_in_pem : ConfigMessage
  no_certificate_of : CertificateKind → ConfigMessage
  no_usable_roots : Option (List ℕ) → ConfigMessage
  bad_duration : Setting → ConfigMessage
  foreign : List ℕ → ConfigMessage

pub data HandshakeMessage : Type 0 where
  no_alpn : HandshakeMessage
  foreign : List ℕ → HandshakeMessage

pub data Phase : Type 0 where
  connection_establishment handshake : Phase

pub data Role : Type 0 where
  local_addr_on_server connect_on_client accept_on_server : Role

pub data Error : Type 0 where
  io tls invalid_dns_name : List ℕ → Error
  tls_handshake : HandshakeMessage → Error
  config : ConfigMessage → Error
  protocol : Message → Error
  wire : ProtoError → Error
  limit_exceeded : Limit → Error
  invalid_limit : Field → Reason → Error
  stream_id_exhausted connection_closed : Error
  stream_reset : ℕ → Error
  timeout : Phase → Error
  endpoint_role : Role → Error
