-- ===== src/Socks5.antt =====
-- src/protocol/socks5/mod.rs, tcp_connect.rs and the reply of udp_associate.rs: the SOCKS5 server,
-- from the greeting to the command. The UDP relay itself is modelled in `Udp`.
pub mod Handshake
pub mod Access
pub mod Session
pub mod Returns
pub mod Framed
use peregrine_proxy.Base.{ℕ, Bool, Option, none, some, List, [], ◌∷◌, ◌++◌, ◌==◌, if◌then◌else◌}
use peregrine_proxy.Base.Text.{Bytes}
use peregrine_proxy.Base.Word.{to_be_bytes}
use peregrine_proxy.Base.Ip.{ipv4_text, ipv6_text}
use peregrine_proxy.Config.{UserCredential}
use peregrine_proxy.Error.{socks5, no_users_configured, io}
use peregrine_proxy.Stream.{
  Conn, Outcome, done, fail, hung, M, pure, raise, ◌>>=◌, ◌>>◌, write_all, record_event, tunnel,
  relay,
}
use peregrine_proxy.Network.{Network, SocketAddr, v4, v6, Bound, bound, unbound}
use peregrine_proxy.Upstream.{address, address_text, direct_connect}
use Handshake.{
  SocksCommand, connect, bind, udp_associate, TargetAddr, ipv4, domain, ipv6, SocksRequest,
  negotiate_method, authenticate_user, read_request, send_reply,
}

-- The host and the port of `handle_connect`.
unfoldable pub target_host : TargetAddr → Bytes × ℕ
target_host (ipv4 addr port) = (ipv4_text addr, port)
target_host (domain name port) = (name, port)
target_host (ipv6 addr port) = (ipv6_text addr, port)

-- The two arms of `match connector.connect(..).await`; an error of the copy is only logged.
answer_connect : Bytes → Outcome Conn × Conn → Outcome (Unit {0}) × Conn
answer_connect addr (done target_stream, s) = (send_reply 0x00 >> record_event (tunnel addr)) s
answer_connect addr (fail e, s) = send_reply 0x05 s
answer_connect addr (hung, s) = (hung, s)

unfoldable pub handle_connect : Network → SocksRequest → M (Unit {0})
unfolding answer_connect
handle_connect net request s =
    let (host, port) = target_host request.target in
    answer_connect (address_text host port) (direct_connect net (address host port) s)

pub address_bytes : SocketAddr → Bytes
address_bytes (v4 octets port) = 0x01 ∷ octets ++ to_be_bytes port
address_bytes (v6 octets port) = 0x04 ∷ octets ++ to_be_bytes port

unfoldable pub send_udp_reply : ℕ → SocketAddr → M (Unit {0})
unfolding address_bytes
send_udp_reply rep addr = write_all (0x05 ∷ rep ∷ 0x00 ∷ address_bytes addr)

abbrev bound_addr : Bound → M SocketAddr
bound_addr (bound addr) = pure addr
bound_addr (unbound e) = raise (io e)

unfoldable pub handle_udp_associate : Network → M (Unit {0})
handle_udp_associate net = do
  relay_addr ← bound_addr net.udp_bind
  send_udp_reply 0x00 relay_addr
  record_event relay

-- Phase 1.5 of `handle_socks5_inner`.
authenticate_if : ℕ → Option (List UserCredential) → M (Unit {0})
authenticate_if method (some users) = if method == 0x02 then authenticate_user users else pure tt
authenticate_if method none = if method == 0x02 then raise (socks5 no_users_configured) else pure tt

-- `match request.command`.
unfoldable pub dispatch : Network → SocksCommand → SocksRequest → M (Unit {0})
dispatch net connect request = handle_connect net request
dispatch net udp_associate request = handle_udp_associate net
dispatch net bind request = send_reply 0x07

unfoldable pub handle_socks5_inner : Network → Option (List UserCredential) → M (Unit {0})
unfolding authenticate_if
handle_socks5_inner net users = do
  method ← negotiate_method users
  authenticate_if method users
  request ← read_request
  dispatch net request.command request

-- `handle_socks5`: an error is logged, and the connection is dropped.
unfoldable pub handle_socks5 : Network → Option (List UserCredential) → Conn → Conn
handle_socks5 net users s = (handle_socks5_inner net users s).1
