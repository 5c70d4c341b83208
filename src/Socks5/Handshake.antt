-- ===== src/Socks5/Handshake.antt =====
-- src/protocol/socks5/handshake.rs: the phases of the SOCKS5 handshake (RFC 1928, RFC 1929). The
-- connection is the state of `Stream`; every read is under the 30 second timeout of the source.
pub mod Negotiate
pub mod Authenticate
pub mod Request
pub mod Quiet
pub mod Targets
pub mod Sound
use peregrine_proxy.Base.{
  ℕ, Bool, Option, none, some, List, [], ◌∷◌, not, ◌==◌, if◌then◌else◌, get_or, contains,
}
use peregrine_proxy.Base.Text.{Bytes, from_utf8}
use peregrine_proxy.Base.Word.{from_be_bytes}
use peregrine_proxy.Config.{UserCredential}
use peregrine_proxy.Error.{
  socks5, invalid_version, no_acceptable_method, invalid_auth_version, invalid_username_encoding,
  invalid_password_encoding, authentication_failed, invalid_request_version,
  invalid_domain_encoding, unknown_command, unknown_address_type,
}
use peregrine_proxy.Stream.{
  M, pure, raise, ok_or, fail_if, ◌>>=◌, ◌>>◌, read_exact, write_all, timeout,
}
use peregrine_proxy.Acl.Auth.{verify_credentials}

pub data SocksCommand : Type 0 where
  connect bind udp_associate : SocksCommand

-- The octets of an address are a list: four of them, or sixteen.
pub data TargetAddr : Type 0 where
  ipv4 : Bytes → ℕ → TargetAddr
  domain : Bytes → ℕ → TargetAddr
  ipv6 : Bytes → ℕ → TargetAddr

pub record SocksRequest : Type 0 where
  pub command : SocksCommand
  pub target : TargetAddr

-- `timeout(HANDSHAKE_TIMEOUT, stream.read_exact(&mut buf))` and its two `map_err`.
abbrev pub read_timed : ℕ → M Bytes
read_timed n = timeout (read_exact n)

unfoldable pub select_method : Option (List UserCredential) → Bytes → ℕ
select_method (some users) methods = if contains methods 0x02 then 0x02 else 0xff
select_method none methods = if contains methods 0x00 then 0x00 else 0xff

unfoldable pub negotiate_method : Option (List UserCredential) → M ℕ
negotiate_method users = do
  header ← read_timed 2
  fail_if (not (get_or header 0 0 == 0x05)) (socks5 invalid_version)
  methods ← read_timed (get_or header 1 0)
  let selected = select_method users methods
  write_all (0x05 ∷ selected ∷ [])
  fail_if (selected == 0xff) (socks5 no_acceptable_method)
  pure selected

-- The replies and the result, once the credentials have been compared.
unfoldable pub conclude_auth : Bool → M (Unit {0})
conclude_auth authenticated = do
  write_all (0x01 ∷ (if authenticated then 0x00 else 0x01) ∷ [])
  fail_if (not authenticated) (socks5 authentication_failed)
  pure tt

unfoldable pub authenticate_user : List UserCredential → M (Unit {0})
authenticate_user users = do
  ver ← read_timed 1
  fail_if (not (get_or ver 0 0 == 0x01)) (socks5 invalid_auth_version)
  ulen ← read_timed 1
  username ← read_timed (get_or ulen 0 0)
  plen ← read_timed 1
  password ← read_timed (get_or plen 0 0)
  username_str ← ok_or (from_utf8 username) (socks5 invalid_username_encoding)
  password_str ← ok_or (from_utf8 password) (socks5 invalid_password_encoding)
  conclude_auth (verify_credentials username_str password_str users)

unfoldable pub parse_command : ℕ → M SocksCommand
parse_command c =
    if c == 0x01
    then pure connect
    else if c == 0x02
    then pure bind
    else if c == 0x03
    then pure udp_associate
    else raise (socks5 (unknown_command c))

unfoldable pub read_port : M ℕ
read_port = do
  port_buf ← read_timed 2
  pure (from_be_bytes (get_or port_buf 0 0) (get_or port_buf 1 0))

unfoldable pub read_ipv4 : M TargetAddr
unfolding read_port
read_ipv4 = do addr ← read_timed 4; port ← read_port; pure (ipv4 addr port)

unfoldable pub read_domain : M TargetAddr
unfolding read_port
read_domain = do
  len ← read_timed 1
  name ← read_timed (get_or len 0 0)
  port ← read_port
  domain_str ← ok_or (from_utf8 name) (socks5 invalid_domain_encoding)
  pure (domain domain_str port)

unfoldable pub read_ipv6 : M TargetAddr
unfolding read_port
read_ipv6 = do addr ← read_timed 16; port ← read_port; pure (ipv6 addr port)

-- `match header[3]`.
unfoldable pub read_target : ℕ → M TargetAddr
unfolding read_ipv4 read_domain read_ipv6
read_target atyp =
    if atyp == 0x01
    then read_ipv4
    else if atyp == 0x03
    then read_domain
    else if atyp == 0x04
    then read_ipv6
    else raise (socks5 (unknown_address_type atyp))

unfoldable pub read_request : M SocksRequest
read_request = do
  header ← read_timed 4
  fail_if (not (get_or header 0 0 == 0x05)) (socks5 invalid_request_version)
  command ← parse_command (get_or header 1 0)
  target ← read_target (get_or header 3 0)
  pure (record { command = command; target = target })

unfoldable pub send_reply : ℕ → M (Unit {0})
send_reply rep = write_all (0x05 ∷ rep ∷ 0x00 ∷ 0x01 ∷ 0x00 ∷ 0x00 ∷ 0x00 ∷ 0x00 ∷ 0x00 ∷ 0x00 ∷ [])
