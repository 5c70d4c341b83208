-- ===== src/Upstream.antt =====
-- src/upstream/mod.rs and src/upstream/direct.rs: targets, the direct connector, `extract_host` and
-- `wrap_tls`. rustls is a parameter.
pub mod Socks5Client
pub mod HttpClient
pub mod Chain
pub mod Router
use peregrine_proxy.Base.{ℕ, Bool, false, List, [], ◌∷◌, ◌++◌, Option, none, some, take}
use peregrine_proxy.Base.Text.{Bytes}
use peregrine_proxy.Base.Decimal.{decimal}
use peregrine_proxy.Base.Search.{rfind}
use peregrine_proxy.Error.{io, upstream, tls_handshake_failed, invalid_server_name}
use peregrine_proxy.Stream.{Conn, Outcome, done, fail, hung, M, record_event, dial, ◌>>◌}
use peregrine_proxy.Network.{Network, Connected, opened, refused}

pub data ConnectTarget : Type 0 where
  address : Bytes → ℕ → ConnectTarget

-- `format!("{}:{}", host, port)`.
unfoldable pub address_text : Bytes → ℕ → Bytes
address_text host port = host ++ b':' ∷ decimal port

abbrev pub open_result : Connected → M Conn
open_result (opened c) s = (done c, s)
open_result (refused e) s = (fail (io e), s)

-- `DirectConnector::connect`; the value is the state of the connection that it opened.
unfoldable pub direct_connect : Network → ConnectTarget → M Conn
direct_connect net (address host port) =
    record_event (dial (address_text host port))
    >> open_result (net.tcp_connect (address_text host port))

host_before : Bytes → Option ℕ → Bytes
host_before addr none = addr
host_before addr (some colon_pos) = take colon_pos addr

unfoldable pub extract_host : Bytes → Bytes
unfolding host_before
extract_host addr = host_before addr (rfind b':' addr)

-- The `ClientConfig` that the connector is built with: the certificates it trusts, and whether it
-- shows one of its own.
pub record TlsConnector : Type 0 where
  pub root_store : List Bytes
  pub client_auth : Bool

-- rustls and webpki_roots: `TLS_SERVER_ROOTS`, `ServerName::try_from` and the handshake, which
-- gives the stream inside TLS, fails, or never ends.
pub record Rustls : Type 0 where
  pub server_roots : List Bytes
  pub server_name : Bytes → Option Bytes
  pub handshake : TlsConnector → Bytes → Conn → Outcome Conn

unfoldable pub create_tls_connector : Rustls → TlsConnector
create_tls_connector rustls = record { root_store = rustls.server_roots; client_auth = false }

-- `map_err` of the handshake.
abbrev pub handshake_result : Outcome Conn → Outcome Conn
handshake_result (done tls) = done tls
handshake_result (fail e) = fail (upstream tls_handshake_failed)
handshake_result hung = hung

unfoldable pub wrap_named : Rustls → Conn → Bytes → Option Bytes → Outcome Conn
unfolding create_tls_connector
wrap_named rustls stream host none = fail (upstream (invalid_server_name host))
wrap_named rustls stream host (some name) =
    handshake_result (rustls.handshake (create_tls_connector rustls) name stream)

unfoldable pub wrap_tls : Rustls → Conn → Bytes → Outcome Conn
unfolding wrap_named
wrap_tls rustls stream host = wrap_named rustls stream host (rustls.server_name host)
