-- ===== src/Upstream/Socks5Client/Addresses.antt =====
-- What becomes of an address that the server reads and the client writes.
use peregrine_proxy.Base.{ℕ, ◌<◌, ◌≡◌, [], ◌∷◌, ◌++◌}
use peregrine_proxy.Base.Text.{Bytes}
use peregrine_proxy.Base.Ip.{ipv4_text}
use peregrine_proxy.Base.IpParse.Dotted.{parse_ipv4-ipv4_text}
use peregrine_proxy.Socks5.{target_host}
use peregrine_proxy.Socks5.Handshake.{connect, ipv4}
use peregrine_proxy.Socks5.Handshake.Request.{request_bytes}
use peregrine_proxy.Upstream.Socks5Client.{connect_request}
use peregrine_proxy.Upstream.Socks5Client.Wire.{connect_request-ipv4}

-- The host text that the server makes of an IPv4 target of four octets is written by the client as
-- the same IPv4 target, not as a name.
pub connect_request-target_host :
    (a b c d port : ℕ) (rest : Bytes)
    → a < 256
    → b < 256
    → c < 256
    → d < 256
    → let target = ipv4 (a ∷ b ∷ c ∷ d ∷ []) port in
      connect_request (target_host target).0 (target_host target).1 ++ rest
      ≡ request_bytes connect target rest
unfolding target_host
connect_request-target_host a b c d port rest ha hb hc hd =
    connect_request-ipv4 (ipv4_text (a ∷ b ∷ c ∷ d ∷ [])) (a ∷ b ∷ c ∷ d ∷ []) rest port
      (parse_ipv4-ipv4_text a b c d ha hb hc hd)
