-- ===== src/Tests/Wire.antt =====
-- Detection and UDP packets.
use peregrine_proxy.Base.{◌≡◌, ◌≢◌, refl, ◌↔◌, [], ◌∷◌, ◌++◌, arith}
use peregrine_proxy.Base.Text.{Bytes, codes, is_utf8_ascii}
use peregrine_proxy.Error.{ok}
use peregrine_proxy.Detect.{http, methods, detect_protocol}
use peregrine_proxy.Detect.Methods.{Any, Compatible, detect_protocol-http_iff}
use peregrine_proxy.Socks5.Handshake.{TargetAddr, domain}
use peregrine_proxy.Socks5.Handshake.Request.{IsTarget}
use peregrine_proxy.Base.Word.{to_u8, to_be_bytes}
use peregrine_proxy.Udp.{source_bytes, parse_socks5_udp_packet, build_socks5_udp_response}
use peregrine_proxy.Udp.Packet.{parse-build}
use peregrine_proxy.Udp.Accepted.{parse-Rebuilds}

detect_protocol-http_iff_example :
    (detect_protocol (codes "GET / HT") ≡ http)
    ↔ ((codes "GET / HT" ≢ []) × Any (Compatible (codes "GET / HT")) methods)
detect_protocol-http_iff_example = detect_protocol-http_iff (codes "GET / HT")

abbrev resolver : TargetAddr
resolver = domain (codes "dns.example") 53

resolver-IsTarget : IsTarget resolver
resolver-IsTarget = (omega arith, is_utf8_ascii (codes "dns.example") (omega arith), omega arith)

abbrev packet : Bytes
packet = 0x00 ∷ 0x00 ∷ 0x00 ∷ 0x03 ∷ 11 ∷ (codes "dns.example" ++ (0x00 ∷ 53 ∷ 1 ∷ 2 ∷ []))

parse-build_example :
    parse_socks5_udp_packet (build_socks5_udp_response resolver (1 ∷ 2 ∷ []))
    ≡ ok (resolver, 1 ∷ 2 ∷ [])
parse-build_example = parse-build resolver (1 ∷ 2 ∷ []) resolver-IsTarget

packet_built : build_socks5_udp_response resolver (1 ∷ 2 ∷ []) ≡ packet
unfolding build_socks5_udp_response source_bytes to_u8 to_be_bytes
packet_built = refl

packet_parsed : parse_socks5_udp_packet packet ≡ ok (resolver, 1 ∷ 2 ∷ [])
packet_parsed = rw packet_built at (parse-build resolver (1 ∷ 2 ∷ []) resolver-IsTarget)

parse-Rebuilds_example :
    IsTarget resolver × (build_socks5_udp_response resolver (1 ∷ 2 ∷ []) ≡ packet)
parse-Rebuilds_example = parse-Rebuilds packet (omega arith) packet_parsed
