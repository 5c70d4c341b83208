-- ===== src/Upstream/Socks5Client/Silence.antt =====
-- The client has no time limit.
use peregrine_proxy.Base.{◌<◌, ◌≡◌, Option, none, length, arith}
use peregrine_proxy.Config.{UserCredential}
use peregrine_proxy.Stream.{Conn, hung, silent, read_exact}
use peregrine_proxy.Stream.Laws.{write_all_open}
use peregrine_proxy.Upstream.{ConnectTarget}
use peregrine_proxy.Upstream.Socks5Client.{greeting, perform_socks5_handshake}

-- With an upstream proxy that takes the greeting and sends less than two bytes, without closing the
-- connection, the handshake never returns.
pub perform_socks5_handshake_hangs :
    (auth : Option UserCredential) (target : ConnectTarget) (s : Conn)
    → length s.input < 2
    → s.ending ≡ silent
    → s.room ≡ none
    → (perform_socks5_handshake auth target s).0 ≡ hung
unfolding perform_socks5_handshake read_exact
perform_socks5_handshake_hangs auth target s short e r =
    ground (arith, write_all_open (greeting auth) s r)
