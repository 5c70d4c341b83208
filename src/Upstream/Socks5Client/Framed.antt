-- ===== src/Upstream/Socks5Client/Framed.antt =====
-- The handshake with an upstream SOCKS5 proxy leaves what the tunnel carries.
use peregrine_proxy.Base.{◌≡◌, ℕ, Option, none, some}
use peregrine_proxy.Base.Text.{Bytes}
use peregrine_proxy.Config.{UserCredential}
use peregrine_proxy.Stream.{Conn, done}
use peregrine_proxy.Stream.Framed.{IsFramed, Frames, framed_rules}
use peregrine_proxy.Upstream.{ConnectTarget, address}
use peregrine_proxy.Upstream.Socks5Client.{
  log_in, answer_method, discard, discard_domain, discard_bound, request_connect,
  perform_socks5_handshake,
}

log_in-IsFramed : (auth : Option UserCredential) → IsFramed (log_in auth)
unfolding log_in
log_in-IsFramed none = search framed_rules depth 4
log_in-IsFramed (some auth) = search framed_rules depth 16

answer_method-IsFramed :
    (auth : Option UserCredential) (method : ℕ) → IsFramed (answer_method auth method)
unfolding answer_method
answer_method-IsFramed auth method = search (framed_rules, log_in-IsFramed) depth 12

discard-IsFramed : (n : ℕ) → IsFramed (discard n)
unfolding discard
discard-IsFramed n = search framed_rules depth 8

discard_bound-IsFramed : (atyp : ℕ) → IsFramed (discard_bound atyp)
unfolding discard_bound discard_domain
discard_bound-IsFramed atyp = search (framed_rules, discard-IsFramed) depth 12

request_connect-IsFramed : (host : Bytes) (port : ℕ) → IsFramed (request_connect host port)
unfolding request_connect
request_connect-IsFramed host port = search (framed_rules, discard_bound-IsFramed) depth 16

-- A handshake with an upstream SOCKS5 proxy that ends well has used the first bytes that the proxy
-- sent, and ends in the same way whatever follows them, in whatever segments it comes; all that
-- follows is left for the tunnel.
pub perform_socks5_handshake_framed :
    (auth : Option UserCredential) (target : ConnectTarget) (s s' : Conn)
    → perform_socks5_handshake auth target s ≡ (done tt, s')
    → Frames (perform_socks5_handshake auth target) s tt s'
unfolding perform_socks5_handshake
perform_socks5_handshake_framed auth (address host port) s s' e = session.frames s tt s' e
  where
    session : IsFramed (perform_socks5_handshake auth (address host port))
    session = search (framed_rules, answer_method-IsFramed, request_connect-IsFramed) depth 20
