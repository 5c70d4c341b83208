-- ===== src/Server/Task.antt =====
-- src/server.rs: the task of one accepted connection, with its TLS handshake, and the calls of a
-- `ProxyStream`, which go on to the stream inside. The handshake of rustls is a parameter.
pub mod Streams
use peregrine_proxy.Base.{
  ℕ, Bool, true, false, Option, none, some, List, leb, length, min, take, ◌-◌, ◌++◌,
}
use peregrine_proxy.Base.Text.{Bytes}
use peregrine_proxy.Stream.{Conn, Outcome, done, fail, hung, M, read}
use peregrine_proxy.Network.{Network}
use peregrine_proxy.Http.{Hyper, handle_http, handle_http_generic}
use peregrine_proxy.Startup.Tls.{TlsAcceptor}
use peregrine_proxy.Server.{ProxyStream, plain, tls, handle_connection}

-- A call on the stream inside.
abbrev pub rewrap : {A : Type 0} → (Conn → ProxyStream) → Outcome A × Conn → Outcome A × ProxyStream
rewrap wrap (r, s) = (r, wrap s)

-- `poll_read` into a buffer of n bytes; a call that is not ready is `hung`.
unfoldable pub poll_read : ℕ → ProxyStream → Outcome Bytes × ProxyStream
poll_read n (plain s) = rewrap plain (read n s)
poll_read n (tls s) = rewrap tls (read n s)

-- What a stream of tokio does with `poll_write`, `poll_flush` and `poll_shutdown`.
pub record Writing : Type 0 where
  pub write : Bytes → M ℕ
  pub flush : M (Unit {0})
  pub shutdown : M (Unit {0})

module _ (tcp over_tls : Writing) where
  unfoldable pub poll_write : Bytes → ProxyStream → Outcome ℕ × ProxyStream
  poll_write buf (plain s) = rewrap plain (tcp.write buf s)
  poll_write buf (tls s) = rewrap tls (over_tls.write buf s)

  unfoldable pub poll_flush : ProxyStream → Outcome (Unit {0}) × ProxyStream
  poll_flush (plain s) = rewrap plain (tcp.flush s)
  poll_flush (tls s) = rewrap tls (over_tls.flush s)

  unfoldable pub poll_shutdown : ProxyStream → Outcome (Unit {0}) × ProxyStream
  poll_shutdown (plain s) = rewrap plain (tcp.shutdown s)
  poll_shutdown (tls s) = rewrap tls (over_tls.shutdown s)

unfoldable pub handle_http_with_stream : Hyper → Network → ProxyStream → Conn
handle_http_with_stream hyper net (plain stream) = handle_http hyper net stream
handle_http_with_stream hyper net (tls stream) = handle_http_generic hyper net stream

-- How the task ends: the TLS handshake failed or never ended, or `handle_connection` left the
-- connection as it is.
pub data Ended : Type 0 where
  rejected stuck : Ended
  served : Conn → Ended

-- `match acceptor.accept(stream).await`.
unfoldable pub wrapped : Outcome Conn → Outcome ProxyStream
wrapped (done tls_stream) = done (tls tls_stream)
wrapped (fail e) = fail e
wrapped hung = hung

module _ (handshake : TlsAcceptor → Conn → Outcome Conn) where
  -- `proxy_stream`.
  unfoldable pub proxy_stream : Option TlsAcceptor → Conn → Outcome ProxyStream
  unfolding wrapped
  proxy_stream none stream = done (plain stream)
  proxy_stream (some acceptor) stream = wrapped (handshake acceptor stream)

  module _ (net : Network) (handle_http : ProxyStream → Conn) where
    abbrev pub handle : Outcome ProxyStream → Ended
    handle (done stream) = served (handle_connection net handle_http stream)
    handle (fail e) = rejected
    handle hung = stuck

    -- The task that is spawned for a connection.
    unfoldable pub serve_connection : Option TlsAcceptor → Conn → Ended
    unfolding proxy_stream
    serve_connection tls_acceptor stream = handle (proxy_stream tls_acceptor stream)
