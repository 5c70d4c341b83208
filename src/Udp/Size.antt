-- ===== src/Udp/Size.antt =====
-- How long the packets of build_socks5_udp_response are, and which of them a UDP datagram over
-- IPv4, of at most 65507 bytes, can carry.
use peregrine_proxy.Base.{ℕ, ◌+◌, ◌≤◌, ◌<◌, ◌≡◌, length, length-append, arith}
use peregrine_proxy.Base.Text.{Bytes}
use peregrine_proxy.Base.Word.{to_be_bytes}
use peregrine_proxy.Socks5.Handshake.{TargetAddr, ipv4, domain, ipv6}
use peregrine_proxy.Socks5.Handshake.Request.{IsTarget}
use peregrine_proxy.Udp.{source_bytes, build_socks5_udp_response}

-- The fixed bytes, the address and the port.
abbrev pub header_length : TargetAddr → ℕ
header_length (ipv4 ip port) = 10
header_length (domain name port) = 7 + length name
header_length (ipv6 ip port) = 22

source_bytes-length :
    (source : TargetAddr)
    → IsTarget source
    → 3 + length (source_bytes source) ≡ header_length source
unfolding source_bytes to_be_bytes
source_bytes-length (ipv4 ip port) h = omega (arith, length-append ip (to_be_bytes port))
source_bytes-length (domain name port) h = omega (arith, length-append name (to_be_bytes port))
source_bytes-length (ipv6 ip port) h = omega (arith, length-append ip (to_be_bytes port))

-- A response is longer than its payload by the header of its source.
pub build-length :
    (source : TargetAddr) (payload : Bytes)
    → IsTarget source
    → length (build_socks5_udp_response source payload) ≡ header_length source + length payload
unfolding build_socks5_udp_response
build-length source payload h =
    omega (arith, length-append (source_bytes source) payload, source_bytes-length source h)

header_bounded : (source : TargetAddr) → IsTarget source → header_length source ≤ 262
header_bounded (ipv4 ip port) h = omega arith
header_bounded (domain name port) h = omega (arith, h.0)
header_bounded (ipv6 ip port) h = omega arith

header_least : (source : TargetAddr) → 7 ≤ header_length source
header_least (ipv4 ip port) = omega arith
header_least (domain name port) = omega arith
header_least (ipv6 ip port) = omega arith

-- A payload of at most 65245 bytes fits into a datagram with any source.
pub response_fits :
    (source : TargetAddr) (payload : Bytes)
    → IsTarget source
    → length payload ≤ 65245
    → length (build_socks5_udp_response source payload) ≤ 65507
response_fits source payload h k =
    omega (arith, build-length source payload h, header_bounded source h)

-- A payload of 65501 bytes or more, which a datagram of its own can carry up to 65507, fits with no
-- source.
pub response_too_long :
    (source : TargetAddr) (payload : Bytes)
    → IsTarget source
    → 65501 ≤ length payload
    → 65507 < length (build_socks5_udp_response source payload)
response_too_long source payload h k =
    omega (arith, build-length source payload h, header_least source)
