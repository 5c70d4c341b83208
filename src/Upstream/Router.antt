-- ===== src/Upstream/Router.antt =====
-- src/upstream/mod.rs: `UpstreamRouter`, which picks the connector that the configuration asks for.
pub mod Single
pub mod Secure
use peregrine_proxy.Base.{ℕ, Bool, true, false, Option, none, some}
use peregrine_proxy.Base.Text.{Bytes}
use peregrine_proxy.Config.{
  UserCredential, UpstreamConfig, direct, http, socks5, chain, UpstreamChain,
}
use peregrine_proxy.Error.{io}
use peregrine_proxy.Stream.{Conn, Outcome, done, fail}
use peregrine_proxy.Network.{Network, Connected, opened, refused}
use peregrine_proxy.Acl.Auth.{Base64}
use peregrine_proxy.Upstream.{Rustls, ConnectTarget, address, address_text}
use peregrine_proxy.Upstream.Socks5Client.{Socks5ProxyConnector, socks5_connect}
use peregrine_proxy.Upstream.HttpClient.{HttpProxyConnector, http_connect}
use peregrine_proxy.Upstream.Chain.{chain_connect}

-- The types that implement `UpstreamConnector`.
pub data Connector : Type 0 where
  direct_connector : Connector
  http_connector : HttpProxyConnector → Connector
  socks5_connector : Socks5ProxyConnector → Connector
  chain_connector : UpstreamChain → Connector

-- `tls.unwrap_or(false)`.
abbrev pub or_false : Option Bool → Bool
or_false none = false
or_false (some tls) = tls

unfoldable pub from_config : UpstreamConfig → Connector
from_config direct = direct_connector
from_config (http addr auth tls) =
    http_connector (record { proxy_addr = addr; auth = auth; use_tls = or_false tls })
from_config (socks5 addr auth tls) =
    socks5_connector (record { proxy_addr = addr; auth = auth; use_tls = or_false tls })
from_config (chain c) = chain_connector c

abbrev opened_direct : Connected → Outcome Conn
opened_direct (opened c) = done c
opened_direct (refused e) = fail (io e)

module _ (base64 : Base64) (net : Network) (rustls : Rustls) where
  -- `connect` of the connector.
  unfoldable pub connect : Connector → ConnectTarget → Outcome Conn
  connect direct_connector (address host port) =
      opened_direct (net.tcp_connect (address_text host port))
  connect (http_connector c) target = http_connect base64 net rustls c target
  connect (socks5_connector c) target = socks5_connect net rustls c target
  connect (chain_connector c) target = chain_connect base64 net c target
