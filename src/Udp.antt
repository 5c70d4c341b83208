-- ===== src/Udp.antt =====
-- src/protocol/socks5/udp_associate.rs: the packets of the UDP relay, and its table of clients.
pub mod Packet
pub mod Size
pub mod Accepted
pub mod Relay
use peregrine_proxy.Base.{
  ℕ, ◌+◌, Bool, ◌||◌, not, Option, none, some, List, [], ◌∷◌, ◌++◌, length, take, drop, get_or, ltb,
  ◌==◌, if◌then◌else◌,
}
use peregrine_proxy.Base.Text.{Bytes, from_utf8}
use peregrine_proxy.Base.Word.{to_u8, to_be_bytes, from_be_bytes}
use peregrine_proxy.Error.{
  socks5, packet_too_short, invalid_rsv, fragmentation, ipv4_incomplete, domain_length_missing,
  domain_incomplete, ipv6_incomplete, invalid_domain_encoding, unknown_address_type, ProxyResult,
  ok, err, ◌>>=◌,
}
use peregrine_proxy.Socks5.Handshake.{TargetAddr, ipv4, domain, ipv6}

-- `u16::from_be_bytes([data[i], data[i+1]])`.
abbrev pub port_at : Bytes → ℕ → ℕ
port_at octets i = from_be_bytes (get_or octets i 0) (get_or octets (i + 1) 0)

-- The arms of `match atyp`, where `offset` is 4.
unfoldable pub parse_ipv4 : Bytes → ProxyResult (TargetAddr × Bytes)
parse_ipv4 octets =
    if ltb (length octets) (4 + 6)
    then err (socks5 ipv4_incomplete)
    else ok (ipv4 (take 4 (drop 4 octets)) (port_at octets 8), drop 10 octets)

abbrev pub named : Option Bytes → ℕ → Bytes → ProxyResult (TargetAddr × Bytes)
named none port payload = err (socks5 invalid_domain_encoding)
named (some name) port payload = ok (domain name port, payload)

unfoldable pub parse_domain : Bytes → ProxyResult (TargetAddr × Bytes)
parse_domain octets =
    let len = get_or octets 4 0 in
    if ltb (length octets) (4 + 1)
    then err (socks5 domain_length_missing)
    else if ltb (length octets) (5 + len + 2)
    then err (socks5 domain_incomplete)
    else named (from_utf8 (take len (drop 5 octets))) (port_at octets (5 + len))
        (drop (5 + len + 2) octets)

unfoldable pub parse_ipv6 : Bytes → ProxyResult (TargetAddr × Bytes)
parse_ipv6 octets =
    if ltb (length octets) (4 + 18)
    then err (socks5 ipv6_incomplete)
    else ok (ipv6 (take 16 (drop 4 octets)) (port_at octets 20), drop 22 octets)

unfoldable pub parse_target : ℕ → Bytes → ProxyResult (TargetAddr × Bytes)
unfolding parse_ipv4 parse_domain parse_ipv6
parse_target atyp octets =
    if atyp == 0x01
    then parse_ipv4 octets
    else if atyp == 0x03
    then parse_domain octets
    else if atyp == 0x04
    then parse_ipv6 octets
    else err (socks5 (unknown_address_type atyp))

unfoldable pub parse_socks5_udp_packet : Bytes → ProxyResult (TargetAddr × Bytes)
parse_socks5_udp_packet octets =
    if ltb (length octets) 7
    then err (socks5 packet_too_short)
    else if not (get_or octets 0 0 == 0x00) || not (get_or octets 1 0 == 0x00)
    then err (socks5 invalid_rsv)
    else if not (get_or octets 2 0 == 0x00)
    then err (socks5 fragmentation)
    else parse_target (get_or octets 3 0) octets

-- ATYP, address and port.
unfoldable pub source_bytes : TargetAddr → Bytes
source_bytes (ipv4 ip port) = 0x01 ∷ (ip ++ to_be_bytes port)
source_bytes (domain name port) = 0x03 ∷ to_u8 (length name) ∷ (name ++ to_be_bytes port)
source_bytes (ipv6 ip port) = 0x04 ∷ (ip ++ to_be_bytes port)

unfoldable pub build_socks5_udp_response : TargetAddr → Bytes → Bytes
build_socks5_udp_response source payload = 0x00 ∷ 0x00 ∷ 0x00 ∷ (source_bytes source ++ payload)
