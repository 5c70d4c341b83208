-- ===== src/Upstream/Router/Single.antt =====
-- A chain beside the connectors of its hops, and what the chain makes of TLS.
use peregrine_proxy.Base.{◌≡◌, refl, Bool, Option, none}
use peregrine_proxy.Base.Text.{Bytes}
use peregrine_proxy.Config.{UserCredential, http, socks5, chain, nil, hop}
use peregrine_proxy.Stream.{Conn}
use peregrine_proxy.Network.{Network, opened}
use peregrine_proxy.Acl.Auth.{Base64}
use peregrine_proxy.Upstream.{Rustls, ConnectTarget}
use peregrine_proxy.Upstream.Socks5Client.{socks5_connect}
use peregrine_proxy.Upstream.HttpClient.{http_connect}
use peregrine_proxy.Upstream.Chain.{
  extract_proxy_address, perform_proxy_handshake, connect_single, chain_connect,
}
use peregrine_proxy.Upstream.Router.{from_config, connect}

module _ (base64 : Base64) (net : Network) (rustls : Rustls) where
  -- A chain of one SOCKS5 proxy does what the connector of this proxy does without TLS, when the
  -- proxy can be reached.
  pub single_socks5 :
      (addr : Bytes) (auth : Option UserCredential) (tls : Option Bool) (target : ConnectTarget)
      (c : Conn)
      → net.tcp_connect addr ≡ opened c
      → connect base64 net rustls (from_config (chain (hop (socks5 addr auth tls) nil))) target
        ≡ connect base64 net rustls (from_config (socks5 addr auth none)) target
  unfolding connect from_config chain_connect connect_single extract_proxy_address
      perform_proxy_handshake socks5_connect
  single_socks5 addr auth tls target c e = rw e refl

  -- The same for a chain of one HTTP proxy.
  pub single_http :
      (addr : Bytes) (auth : Option UserCredential) (tls : Option Bool) (target : ConnectTarget)
      (c : Conn)
      → net.tcp_connect addr ≡ opened c
      → connect base64 net rustls (from_config (chain (hop (http addr auth tls) nil))) target
        ≡ connect base64 net rustls (from_config (http addr auth none)) target
  unfolding connect from_config chain_connect connect_single extract_proxy_address
      perform_proxy_handshake http_connect
  single_http addr auth tls target c e = rw e refl
