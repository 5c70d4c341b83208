-- ===== src/Upstream/Router/Secure.antt =====
-- What the connectors do before they speak to a proxy over TLS.
use peregrine_proxy.Base.{◌≡◌, refl, true, Option, none, some}
use peregrine_proxy.Base.Text.{Bytes}
use peregrine_proxy.Config.{UserCredential, UpstreamConfig, http, socks5}
use peregrine_proxy.Stream.{M, Conn, Outcome, done, fail, hung}
use peregrine_proxy.Network.{Network, Connected, opened, refused}
use peregrine_proxy.Acl.Auth.{Base64}
use peregrine_proxy.Upstream.{
  ConnectTarget, extract_host, Rustls, create_tls_connector, handshake_result, wrap_named, wrap_tls,
}
use peregrine_proxy.Upstream.Socks5Client.{
  and_then, after, open_proxy, socks5_connect, perform_socks5_handshake,
}
use peregrine_proxy.Upstream.HttpClient.{http_connect, perform_http_handshake}
use peregrine_proxy.Upstream.Chain.{perform_proxy_handshake}
use peregrine_proxy.Upstream.Router.{from_config, connect}

and_then-eq-done :
    {A B : Type 0} (o : Outcome A) (f : A → Outcome B) {b : B}
    → and_then o f ≡ done b
    → (a : A) × (o ≡ done a) × (f a ≡ done b)
and_then-eq-done (done a) f h = (a, refl, h)
and_then-eq-done (fail e) f h = absurd (cc)
and_then-eq-done hung f h = absurd (cc)

after-eq-done : (p : Outcome (Unit {0}) × Conn) {c : Conn} → after p ≡ done c → p ≡ (done tt, c)
after-eq-done (done u, s) h = cc
after-eq-done (fail e, s) h = absurd (cc)
after-eq-done (hung, s) h = absurd (cc)

open_proxy-eq-done :
    (addr : Bytes) (o : Connected) {c : Conn} → open_proxy addr o ≡ done c → o ≡ opened c
open_proxy-eq-done addr (opened c) h = cc
open_proxy-eq-done addr (refused e) h = absurd (cc)

handshake_result-eq-done : (o : Outcome Conn) {c : Conn} → handshake_result o ≡ done c → o ≡ done c
handshake_result-eq-done (done c) h = h
handshake_result-eq-done (fail e) h = absurd (cc)
handshake_result-eq-done hung h = absurd (cc)

-- The connection `tls` is inside TLS, with the name of the proxy's host.
unfoldable pub IsWrapped : Rustls → Bytes → Conn → Conn → Type 0
IsWrapped rustls addr stream tls =
    (name : Bytes) × (rustls.server_name (extract_host addr) ≡ some name)
    × (rustls.handshake (create_tls_connector rustls) name stream ≡ done tls)

wrap_named-IsWrapped :
    (rustls : Rustls) (addr : Bytes) (stream tls : Conn) (name : Option Bytes)
    → rustls.server_name (extract_host addr) ≡ name
    → wrap_named rustls stream (extract_host addr) name ≡ done tls
    → IsWrapped rustls addr stream tls
unfolding wrap_named IsWrapped
wrap_named-IsWrapped rustls addr stream tls none e h = absurd (cc)
wrap_named-IsWrapped rustls addr stream tls (some name) e h = (
  name,
  e,
  handshake_result-eq-done (rustls.handshake (create_tls_connector rustls) name stream) h,
)

wrap_tls-IsWrapped :
    (rustls : Rustls) (addr : Bytes) (stream tls : Conn)
    → wrap_tls rustls stream (extract_host addr) ≡ done tls
    → IsWrapped rustls addr stream tls
unfolding wrap_tls
wrap_tls-IsWrapped rustls addr stream tls h =
    wrap_named-IsWrapped rustls addr stream tls (rustls.server_name (extract_host addr)) refl h

-- The proxies that are asked for by an address, with TLS.
pub data Secure : UpstreamConfig → Bytes → Type 0 where
  secure_http :
      (addr : Bytes) (auth : Option UserCredential) → Secure (http addr auth (some true)) addr
  secure_socks5 :
      (addr : Bytes) (auth : Option UserCredential) → Secure (socks5 addr auth (some true)) addr

module _ (base64 : Base64) (net : Network) (rustls : Rustls) where
  inside_tls :
      (addr : Bytes) (talk : M (Unit {0})) (c : Conn)
      → (and_then
          (open_proxy addr (net.tcp_connect addr))
          λ stream. and_then (wrap_tls rustls stream (extract_host addr)) λ tls. after (talk tls))
        ≡ done c
      → (stream tls : Conn) × (net.tcp_connect addr ≡ opened stream)
        × IsWrapped rustls addr stream tls
        × (talk tls ≡ (done tt, c))
  inside_tls addr talk c h =
      let (stream, e1, h1) = and_then-eq-done (open_proxy addr (net.tcp_connect addr)) _ h in
      let (tls, e2, h2) = and_then-eq-done (wrap_tls rustls stream (extract_host addr)) _ h1 in
      (
        stream,
        tls,
        open_proxy-eq-done addr (net.tcp_connect addr) e1,
        wrap_tls-IsWrapped rustls addr stream tls e2,
        after-eq-done (talk tls) h2,
      )

  -- A connector of one proxy with TLS that connects has opened the proxy's address, the TLS
  -- handshake with the name of the proxy's host has ended well, and the whole conversation with
  -- the proxy took place inside TLS.
  pub connect-IsWrapped :
      (config : UpstreamConfig) (addr : Bytes) (target : ConnectTarget) (c : Conn)
      → Secure config addr
      → connect base64 net rustls (from_config config) target ≡ done c
      → (stream tls : Conn) × (net.tcp_connect addr ≡ opened stream)
        × IsWrapped rustls addr stream tls
        × (perform_proxy_handshake base64 config target tls ≡ (done tt, c))
  unfolding connect from_config http_connect socks5_connect perform_proxy_handshake
  connect-IsWrapped _ _ target c (secure_http addr auth) h =
      inside_tls addr (perform_http_handshake base64 auth target) c h
  connect-IsWrapped _ _ target c (secure_socks5 addr auth) h =
      inside_tls addr (perform_socks5_handshake auth target) c h
