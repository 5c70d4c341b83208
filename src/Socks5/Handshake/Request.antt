-- ===== src/Socks5/Handshake/Request.antt =====
-- `read_request` reads back every request that RFC 1928 can write.
use peregrine_proxy.Base.{ℕ, ◌≤◌, ◌<◌, ◌≡◌, refl, true, [], ◌∷◌, ◌++◌, length, arith}
use peregrine_proxy.Base.Text.{Bytes, is_utf8, from_utf8_valid}
use peregrine_proxy.Base.Word.{to_be_bytes, from_be_bytes_lem}
use peregrine_proxy.Stream.{Conn, done}
use peregrine_proxy.Stream.Laws.{read_exact-append}
use peregrine_proxy.Socks5.Handshake.{
  SocksCommand, connect, bind, udp_associate, TargetAddr, ipv4, domain, ipv6, read_port,
  read_target, read_request, parse_command,
}

abbrev pub command_code : SocksCommand → ℕ
command_code connect = 0x01
command_code bind = 0x02
command_code udp_associate = 0x03

abbrev pub atyp : TargetAddr → ℕ
atyp (ipv4 addr port) = 0x01
atyp (domain name port) = 0x03
atyp (ipv6 addr port) = 0x04

-- The address, its length before it if it is a name, and the port.
abbrev pub target_bytes : TargetAddr → Bytes → Bytes
target_bytes (ipv4 addr port) rest = addr ++ (to_be_bytes port ++ rest)
target_bytes (domain name port) rest = length name ∷ name ++ (to_be_bytes port ++ rest)
target_bytes (ipv6 addr port) rest = addr ++ (to_be_bytes port ++ rest)

abbrev pub request_bytes : SocksCommand → TargetAddr → Bytes → Bytes
request_bytes command target rest =
    0x05 ∷ command_code command ∷ 0x00 ∷ atyp target ∷ target_bytes target rest

-- What fits the format: the octets of the kind of address, a name of at most 255 bytes of UTF-8,
-- and a 16-bit port.
abbrev pub IsTarget : TargetAddr → Type 0
IsTarget (ipv4 addr port) = (length addr ≡ 4) × (port < 65536)
IsTarget (domain name port) = (length name ≤ 255) × (is_utf8 name ≡ true) × (port < 65536)
IsTarget (ipv6 addr port) = (length addr ≡ 16) × (port < 65536)

read_port_lem :
    (port : ℕ) (rest : Bytes) (s : Conn)
    → port < 65536
    → s.input ≡ to_be_bytes port ++ rest
    → read_port s ≡ (done port, record s { input = rest })
unfolding read_port to_be_bytes
read_port_lem port rest s h e =
    ground (arith, read_exact-append 2 (to_be_bytes port) rest s e refl, from_be_bytes_lem port h)

read_target_lem :
    (target : TargetAddr) (rest : Bytes) (s : Conn)
    → IsTarget target
    → s.input ≡ target_bytes target rest
    → read_target (atyp target) s ≡ (done target, record s { input = rest })
unfolding read_target
read_target_lem (ipv4 addr port) rest s (n, h) e = ground (
  arith,
  read_exact-append 4 addr (to_be_bytes port ++ rest) s e n,
  read_port_lem port rest (record s { input = to_be_bytes port ++ rest }) h refl,
)
read_target_lem (domain name port) rest s (n, u, h) e = ground (
  arith,
  read_exact-append 1 (length name ∷ []) (name ++ (to_be_bytes port ++ rest)) s e refl,
  read_exact-append (length name) name (to_be_bytes port ++ rest)
      (record s { input = name ++ (to_be_bytes port ++ rest) }) refl refl,
  read_port_lem port rest (record s { input = to_be_bytes port ++ rest }) h refl,
  from_utf8_valid name u,
)
read_target_lem (ipv6 addr port) rest s (n, h) e = ground (
  arith,
  read_exact-append 16 addr (to_be_bytes port ++ rest) s e n,
  read_port_lem port rest (record s { input = to_be_bytes port ++ rest }) h refl,
)

parse_command_lem :
    (command : SocksCommand) (s : Conn) → parse_command (command_code command) s ≡ (done command, s)
unfolding parse_command
parse_command_lem connect s = refl
parse_command_lem bind s = refl
parse_command_lem udp_associate s = refl

-- Every well-formed request is read as its command and its target, whatever follows it, and what
-- follows it is left unread.
pub read_request_lem :
    (command : SocksCommand) (target : TargetAddr) (rest : Bytes) (s : Conn)
    → IsTarget target
    → s.input ≡ request_bytes command target rest
    → read_request s
      ≡ (done (record { command = command; target = target }), record s { input = rest })
unfolding read_request
read_request_lem command target rest s h e = ground (
  arith,
  read_exact-append 4 (0x05 ∷ command_code command ∷ 0x00 ∷ atyp target ∷ [])
      (target_bytes target rest) s e refl,
  parse_command_lem command (record s { input = target_bytes target rest }),
  read_target_lem target rest (record s { input = target_bytes target rest }) h refl,
)
