-- ===== src/Error.antt =====
-- src/error.rs: `ProxyError`. The text of a message is one constructor for each literal of the
-- source, with the values that the source formats into it.
use peregrine_proxy.Base.{ℕ}
use peregrine_proxy.Base.Text.{Bytes}

-- The kinds of `std::io::Error` that the modelled code meets.
pub data IoError : Type 0 where
  unexpected_eof connection_reset broken_pipe connection_refused unsupported : IoError

-- `err_msg` of the upstream handshakes, by the reply code.
pub data ConnectFailure : Type 0 where
  general_failure not_allowed network_unreachable host_unreachable refused : ConnectFailure
  ttl_expired command_unsupported address_unsupported unknown_error : ConnectFailure

pub data Socks5Message : Type 0 where
  invalid_version no_acceptable_method invalid_auth_version : Socks5Message
  invalid_username_encoding invalid_password_encoding authentication_failed : Socks5Message
  no_users_configured invalid_request_version invalid_domain_encoding : Socks5Message
  packet_too_short invalid_rsv fragmentation domain_length_missing : Socks5Message
  ipv4_incomplete domain_incomplete ipv6_incomplete : Socks5Message
  invalid_upstream_version no_credentials_configured methods_rejected : Socks5Message
  unknown_command unknown_address_type unsupported_method : ℕ → Socks5Message
  resolve_failed : Bytes → Socks5Message

pub data UpstreamMessage : Type 0 where
  empty_chain direct_has_no_address nested_chain : UpstreamMessage
  direct_failed : IoError → UpstreamMessage
  proxy_failed first_proxy_failed : Bytes → IoError → UpstreamMessage
  invalid_port missing_port : Bytes → UpstreamMessage
  http_connect_failed : Bytes → UpstreamMessage
  socks5_connect_failed : ConnectFailure → UpstreamMessage
  invalid_server_name : Bytes → UpstreamMessage
  tls_handshake_failed : UpstreamMessage

pub data ProxyError : Type 0 where
  io : IoError → ProxyError
  hyper config acl_denied protocol : Bytes → ProxyError
  auth_required auth_failed timeout : ProxyError
  upstream : UpstreamMessage → ProxyError
  socks5 : Socks5Message → ProxyError

-- `ProxyResult` of code that does no input or output, with its `?`.
pub data ProxyResult {ℓ} (A : Type ℓ) : Type ℓ where
  ok : A → ProxyResult A
  err : ProxyError → ProxyResult A

infixl 5 ◌>>=◌
abbrev pub ◌>>=◌ {ℓ κ} :
    {A : Type ℓ} {B : Type κ} → ProxyResult A → (A → ProxyResult B) → ProxyResult B
ok a >>= f = f a
err e >>= f = err e
