-- ===== src/Upstream/Socks5Client.antt =====
-- src/upstream/socks5_proxy.rs: the handshake with an upstream SOCKS5 proxy. The reads have no
-- timeout.
pub mod Wire
pub mod Interop
pub mod Wrapped
pub mod Silence
pub mod Addresses
pub mod Framed
use peregrine_proxy.Base.{
  ℕ, ◌+◌, Bool, true, false, Option, none, some, List, [], ◌∷◌, ◌++◌, not, ◌==◌, if◌then◌else◌,
  get_or, length,
}
use peregrine_proxy.Base.Text.{Bytes}
use peregrine_proxy.Base.Word.{to_u8, to_be_bytes}
use peregrine_proxy.Base.IpParse.{parse_ipv4, parse_ipv6}
use peregrine_proxy.Config.{UserCredential}
use peregrine_proxy.Error.{
  IoError, ConnectFailure, general_failure, not_allowed, network_unreachable, host_unreachable,
  refused, ttl_expired, command_unsupported, address_unsupported, unknown_error, socks5, upstream,
  auth_failed, proxy_failed, invalid_upstream_version, no_credentials_configured, methods_rejected,
  unsupported_method, socks5_connect_failed,
}
use peregrine_proxy.Stream.{
  Conn, Outcome, done, fail, hung, M, pure, raise, ok_or, fail_if, ◌>>=◌, ◌>>◌, bind_outcome,
  read_exact, write_all,
}
use peregrine_proxy.Network.{Network, Connected, opened}
use peregrine_proxy.Upstream.{Rustls, wrap_tls, ConnectTarget, address, extract_host}

-- The offer of methods.
abbrev pub greeting : Option UserCredential → Bytes
greeting (some auth) = 0x05 ∷ 0x02 ∷ 0x00 ∷ 0x02 ∷ []
greeting none = 0x05 ∷ 0x01 ∷ 0x00 ∷ []

-- `auth_req`.
abbrev pub login_request : UserCredential → Bytes
login_request auth =
    0x01
    ∷ to_u8 (length auth.username)
    ∷ (auth.username ++ to_u8 (length auth.password) ∷ auth.password)

unfoldable pub log_in : Option UserCredential → M (Unit {0})
log_in none = raise (socks5 no_credentials_configured)
log_in (some auth) = do
  write_all (login_request auth)
  auth_resp ← read_exact 2
  fail_if (not (get_or auth_resp 1 0 == 0x00)) auth_failed

-- `match resp[1]`.
unfoldable pub answer_method : Option UserCredential → ℕ → M (Unit {0})
answer_method auth method =
    if method == 0x00
    then pure tt
    else if method == 0x02
    then log_in auth
    else if method == 0xff
    then raise (socks5 methods_rejected)
    else raise (socks5 (unsupported_method method))

address_by : Option Bytes → Option Bytes → Bytes → Bytes
address_by (some ipv4) o host = 0x01 ∷ ipv4
address_by none (some ipv6) host = 0x04 ∷ ipv6
address_by none none host = 0x03 ∷ to_u8 (length host) ∷ host

-- ATYP and the address: an IP address in its binary form, anything else as a name.
unfoldable pub host_bytes : Bytes → Bytes
unfolding address_by
host_bytes host = address_by (parse_ipv4 host) (parse_ipv6 host) host

unfoldable pub connect_request : Bytes → ℕ → Bytes
connect_request host port = 0x05 ∷ 0x01 ∷ 0x00 ∷ (host_bytes host ++ to_be_bytes port)

unfoldable pub failure_of : ℕ → ConnectFailure
failure_of rep =
    if rep == 0x01
    then general_failure
    else if rep == 0x02
    then not_allowed
    else if rep == 0x03
    then network_unreachable
    else if rep == 0x04
    then host_unreachable
    else if rep == 0x05
    then refused
    else if rep == 0x06
    then ttl_expired
    else if rep == 0x07
    then command_unsupported
    else if rep == 0x08
    then address_unsupported
    else unknown_error

discard : ℕ → M (Unit {0})
discard n = do buf ← read_exact n; pure tt

discard_domain : M (Unit {0})
unfolding discard
discard_domain = do len ← read_exact 1; discard (get_or len 0 0 + 2)

-- The bound address, by the address type of the reply.
unfoldable pub discard_bound : ℕ → M (Unit {0})
unfolding discard discard_domain
discard_bound atyp =
    if atyp == 0x01
    then discard 6
    else if atyp == 0x03
    then discard_domain
    else if atyp == 0x04
    then discard 18
    else pure tt

unfoldable pub request_connect : Bytes → ℕ → M (Unit {0})
request_connect host port = do
  write_all (connect_request host port)
  reply_header ← read_exact 4
  fail_if (not (get_or reply_header 1 0 == 0x00))
      (upstream (socks5_connect_failed (failure_of (get_or reply_header 1 0))))
  discard_bound (get_or reply_header 3 0)

unfoldable pub perform_socks5_handshake : Option UserCredential → ConnectTarget → M (Unit {0})
perform_socks5_handshake auth (address host port) = do
  write_all (greeting auth)
  resp ← read_exact 2
  fail_if (not (get_or resp 0 0 == 0x05)) (socks5 invalid_upstream_version)
  answer_method auth (get_or resp 1 0)
  request_connect host port

pub record Socks5ProxyConnector : Type 0 where
  pub proxy_addr : Bytes
  pub auth : Option UserCredential
  pub use_tls : Bool

-- The stream after a handshake on it.
abbrev pub after : Outcome (Unit {0}) × Conn → Outcome Conn
after (done u, s) = done s
after (fail e, s) = fail e
after (hung, s) = hung

abbrev pub and_then : {A B : Type 0} → Outcome A → (A → Outcome B) → Outcome B
and_then (done a) f = f a
and_then (fail e) f = fail e
and_then hung f = hung

abbrev pub open_proxy : Bytes → Connected → Outcome Conn
open_proxy addr (opened c) = done c
open_proxy addr (Connected.refused e) = fail (upstream (proxy_failed addr e))

-- `connect` of the connector, over `wrap_tls`.
unfoldable pub socks5_connect :
    Network → Rustls → Socks5ProxyConnector → ConnectTarget → Outcome Conn
socks5_connect net rustls c target =
    and_then (open_proxy c.proxy_addr (net.tcp_connect c.proxy_addr)) λ stream.
      if c.use_tls
      then and_then (wrap_tls rustls stream (extract_host c.proxy_addr))
          (λ tls. after (perform_socks5_handshake c.auth target tls))
      else after (perform_socks5_handshake c.auth target stream)
