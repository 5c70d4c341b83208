-- ===== src/Udp/Packet.antt =====
-- The packets that `parse_socks5_udp_packet` reads are those that `build_socks5_udp_response`
-- writes.
use mathlib.Core.List.{append_assoc}
use peregrine_proxy.Base.{
  ℕ, suc, ◌+◌, ◌<◌, ◌≡◌, refl, true, ap, ◌∙◌, [], ◌∷◌, ◌++◌, length, drop, get_or, arith,
  length-append, take-append, drop-append,
}
use peregrine_proxy.Base.Text.{Bytes, is_utf8, from_utf8_valid}
use peregrine_proxy.Base.Word.{to_u8_small, to_be_bytes, from_be_bytes_lem, length-to_be_bytes}
use peregrine_proxy.Error.{ok}
use peregrine_proxy.Socks5.Handshake.{TargetAddr, ipv4, domain, ipv6}
use peregrine_proxy.Socks5.Handshake.Request.{IsTarget}
use peregrine_proxy.Udp.{
  port_at, parse_ipv4, parse_domain, parse_ipv6, parse_target, parse_socks5_udp_packet,
  source_bytes, build_socks5_udp_response,
}

pub get_or-append :
    (xs ys : Bytes) (n i : ℕ) → n ≡ length xs + i → get_or (xs ++ ys) n 0 ≡ get_or ys i 0
get_or-append [] ys n i h = ap (λ k. get_or ys k 0) (omega arith)
get_or-append (x ∷ xs) ys n i h =
    let e : n ≡ suc (length xs + i) = omega arith in
    ap (λ k. get_or (x ∷ (xs ++ ys)) k 0) e ∙ get_or-append xs ys (length xs + i) i refl

-- A port behind n bytes.
port_at-append :
    (xs rest : Bytes) (port n : ℕ)
    → port < 65536
    → length xs ≡ n
    → port_at (xs ++ (to_be_bytes port ++ rest)) n ≡ port
unfolding to_be_bytes
port_at-append xs rest port n h e =
    rw
      (
        get_or-append xs (to_be_bytes port ++ rest) n 0 (omega arith),
        get_or-append xs (to_be_bytes port ++ rest) (n + 1) 1 (omega arith),
      )
      (from_be_bytes_lem port h)

-- What stands behind that port.
drop_port :
    (xs payload : Bytes) (port n : ℕ)
    → n ≡ length xs + 2
    → drop n (xs ++ (to_be_bytes port ++ payload)) ≡ payload
drop_port xs payload port n e = rw (← append_assoc xs (to_be_bytes port) payload) (
    drop-append n (xs ++ to_be_bytes port) payload
      (omega (arith, length-append xs (to_be_bytes port), length-to_be_bytes port)))

length_packet :
    (xs payload : Bytes) (port : ℕ)
    → length (xs ++ (to_be_bytes port ++ payload)) ≡ length xs + (2 + length payload)
length_packet xs payload port = omega (
  arith,
  length-append xs (to_be_bytes port ++ payload),
  length-append (to_be_bytes port) payload,
  length-to_be_bytes port,
)

parse_ipv4_lem :
    (ip payload : Bytes) (port : ℕ)
    → length ip ≡ 4
    → port < 65536
    → parse_ipv4 (0 ∷ 0 ∷ 0 ∷ 1 ∷ (ip ++ (to_be_bytes port ++ payload)))
      ≡ ok (ipv4 ip port, payload)
unfolding parse_ipv4
parse_ipv4_lem ip payload port n h = rw (take-append 4 ip (to_be_bytes port ++ payload) n) (
    ground (
      arith,
      length_packet ip payload port,
      port_at-append (0 ∷ 0 ∷ 0 ∷ 1 ∷ ip) payload port 8 h (omega arith),
      drop_port ip payload port 6,
    ))

parse_ipv6_lem :
    (ip payload : Bytes) (port : ℕ)
    → length ip ≡ 16
    → port < 65536
    → parse_ipv6 (0 ∷ 0 ∷ 0 ∷ 4 ∷ (ip ++ (to_be_bytes port ++ payload)))
      ≡ ok (ipv6 ip port, payload)
unfolding parse_ipv6
parse_ipv6_lem ip payload port n h = rw (take-append 16 ip (to_be_bytes port ++ payload) n) (
    ground (
      arith,
      length_packet ip payload port,
      port_at-append (0 ∷ 0 ∷ 0 ∷ 4 ∷ ip) payload port 20 h (omega arith),
      drop_port ip payload port 18,
    ))

parse_domain_lem :
    (name payload : Bytes) (port : ℕ)
    → is_utf8 name ≡ true
    → port < 65536
    → parse_domain (0 ∷ 0 ∷ 0 ∷ 3 ∷ length name ∷ (name ++ (to_be_bytes port ++ payload)))
      ≡ ok (domain name port, payload)
unfolding parse_domain
parse_domain_lem name payload port u h =
    rw (take-append (length name) name (to_be_bytes port ++ payload) refl, from_utf8_valid name u)
      (ground (
        arith,
        length_packet name payload port,
        port_at-append (0 ∷ 0 ∷ 0 ∷ 3 ∷ length name ∷ name) payload port (5 + length name) h
            (omega arith),
        drop_port (0 ∷ 0 ∷ 0 ∷ 3 ∷ length name ∷ name) payload port (5 + length name + 2),
      ))

-- A response packet for any well-formed source is read back, as the packet of a client, as this
-- source and this payload.
pub parse-build :
    (source : TargetAddr) (payload : Bytes)
    → IsTarget source
    → parse_socks5_udp_packet (build_socks5_udp_response source payload) ≡ ok (source, payload)
unfolding parse_socks5_udp_packet build_socks5_udp_response parse_target source_bytes
parse-build (ipv4 ip port) payload (n, h) =
    rw (append_assoc ip (to_be_bytes port) payload)
      (ground (arith, length_packet ip payload port, parse_ipv4_lem ip payload port n h))
parse-build (domain name port) payload (n, u, h) =
    rw (append_assoc name (to_be_bytes port) payload, to_u8_small (length name) (omega arith))
      (ground (arith, length_packet name payload port, parse_domain_lem name payload port u h))
parse-build (ipv6 ip port) payload (n, h) =
    rw (append_assoc ip (to_be_bytes port) payload)
      (ground (arith, length_packet ip payload port, parse_ipv6_lem ip payload port n h))
