-- ===== src/Server.antt =====
-- src/server.rs: what is done with one accepted connection. The accept loops and the shutdown are
-- in `Server/Shutdown`. What hyper does with a connection is a parameter; whether a TLS handshake
-- succeeds is decided by rustls, and a `ProxyStream` is a connection for which it has.
pub mod Connection
pub mod Shutdown
pub mod Task
use peregrine_proxy.Base.{ℕ, Option, none, List, [], ◌∷◌}
use peregrine_proxy.Base.Text.{Bytes}
use peregrine_proxy.Config.{UserCredential}
use peregrine_proxy.Error.{io, unsupported}
use peregrine_proxy.Stream.{Conn, Outcome, done, fail, hung, read}
use peregrine_proxy.Network.{Network}
use peregrine_proxy.Detect.{DetectedProtocol, http, socks5, unknown, detect_protocol}
use peregrine_proxy.Detect.Peek.{peek_buffer}
use peregrine_proxy.Socks5.{handle_socks5}

pub data ProxyStream : Type 0 where
  plain tls : Conn → ProxyStream

abbrev pub stream_conn : ProxyStream → Conn
stream_conn (plain s) = s
stream_conn (tls s) = s

-- `ProxyStream::peek`: what a read would find, left in place.
unfoldable pub peek : ℕ → ProxyStream → Outcome Bytes
peek n (plain s) = (read n s).0
peek n (tls s) = fail (io unsupported)

-- What `handle_connection` does with the connection: it is dropped, or it goes to a handler.
pub data Choice : Type 0 where
  dropped : Choice
  handled : DetectedProtocol → Choice
  waiting : Choice

-- The arms of `match stream.peek(&mut buf).await`.
abbrev pub choose : Outcome Bytes → Choice
choose (done []) = dropped
choose (done (b ∷ bs)) = handled (detect_protocol (peek_buffer (b ∷ bs)))
choose (fail e) = dropped
choose hung = waiting

unfoldable pub protocol_detected : ProxyStream → Choice
unfolding peek
protocol_detected (plain s) = choose (peek 8 (plain s))
protocol_detected (tls s) = handled http

module _ (net : Network) (handle_http : ProxyStream → Conn) where
  unfoldable pub handle_socks5_with_stream : ProxyStream → Option (List UserCredential) → Conn
  handle_socks5_with_stream (plain s) users = handle_socks5 net users s
  handle_socks5_with_stream (tls s) users = s

  abbrev pub follow : ProxyStream → Choice → Conn
  follow stream dropped = stream_conn stream
  follow stream (handled http) = handle_http stream
  follow stream (handled socks5) = handle_socks5_with_stream stream none
  follow stream (handled unknown) = stream_conn stream
  follow stream waiting = stream_conn stream

  -- `handle_connection`: the connection as it is left.
  unfoldable pub handle_connection : ProxyStream → Conn
  handle_connection stream = follow stream (protocol_detected stream)
