-- ===== src/Socks5/Framed.antt =====
-- The server's side of a SOCKS5 session takes its messages and nothing of what follows them.
use peregrine_proxy.Base.{ℕ, Bool, Option, none, some, List, ◌≡◌, refl}
use peregrine_proxy.Base.Text.{Bytes}
use peregrine_proxy.Config.{UserCredential}
use peregrine_proxy.Stream.{Conn, done, M, ◌>>◌, record_event, tunnel, dial}
use peregrine_proxy.Stream.Framed.{
  IsFramed, Frames, framed_rules, same-IsFramed, pure-IsFramed, raise-IsFramed,
}
use peregrine_proxy.Network.{Network, Connected, opened, refused, Bound, bound, unbound}
use peregrine_proxy.Upstream.{address_text, direct_connect, open_result}
use peregrine_proxy.Socks5.Handshake.{
  SocksCommand, connect, bind, udp_associate, SocksRequest, negotiate_method, authenticate_user,
  conclude_auth, read_port, read_ipv4, read_domain, read_ipv6, read_request, parse_command,
  read_target, send_reply,
}
use peregrine_proxy.Socks5.{
  target_host, handle_connect, answer_connect, send_udp_reply, bound_addr, handle_udp_associate,
  authenticate_if, dispatch, handle_socks5_inner,
}

negotiate_method-IsFramed :
    (users : Option (List UserCredential)) → IsFramed (negotiate_method users)
unfolding negotiate_method
negotiate_method-IsFramed users = search framed_rules depth 16

conclude_auth-IsFramed : (authenticated : Bool) → IsFramed (conclude_auth authenticated)
unfolding conclude_auth
conclude_auth-IsFramed authenticated = search framed_rules depth 12

authenticate_user-IsFramed : (users : List UserCredential) → IsFramed (authenticate_user users)
unfolding authenticate_user
authenticate_user-IsFramed users = search (framed_rules, conclude_auth-IsFramed) depth 24

parse_command-IsFramed : (c : ℕ) → IsFramed (parse_command c)
unfolding parse_command
parse_command-IsFramed c = search framed_rules depth 12

read_port-IsFramed : IsFramed read_port
unfolding read_port
read_port-IsFramed = search framed_rules depth 12

read_ipv4-IsFramed : IsFramed read_ipv4
unfolding read_ipv4
read_ipv4-IsFramed = search (framed_rules, read_port-IsFramed) depth 16

read_domain-IsFramed : IsFramed read_domain
unfolding read_domain
read_domain-IsFramed = search (framed_rules, read_port-IsFramed) depth 16

read_ipv6-IsFramed : IsFramed read_ipv6
unfolding read_ipv6
read_ipv6-IsFramed = search (framed_rules, read_port-IsFramed) depth 16

read_target-IsFramed : (c : ℕ) → IsFramed (read_target c)
unfolding read_target
read_target-IsFramed c =
    search (framed_rules, read_ipv4-IsFramed, read_domain-IsFramed, read_ipv6-IsFramed) depth 12

read_request-IsFramed : IsFramed read_request
unfolding read_request
read_request-IsFramed = search (framed_rules, parse_command-IsFramed, read_target-IsFramed) depth 16

send_reply-IsFramed : (rep : ℕ) → IsFramed (send_reply rep)
unfolding send_reply
send_reply-IsFramed rep = search framed_rules depth 4

-- `handle_connect` by what the network gives.
connect_by : Bytes → Connected → M (Unit {0})
connect_by addr (opened c) =
    record_event (dial addr) >> (send_reply 0x00 >> record_event (tunnel addr))
connect_by addr (refused e) = record_event (dial addr) >> send_reply 0x05

connect_by-IsFramed : (addr : Bytes) (o : Connected) → IsFramed (connect_by addr o)
unfolding connect_by
connect_by-IsFramed addr (opened c) = search (framed_rules, send_reply-IsFramed) depth 8
connect_by-IsFramed addr (refused e) = search (framed_rules, send_reply-IsFramed) depth 8

answered_by :
    (addr : Bytes) (o : Connected) (s : Conn)
    → connect_by addr o s ≡ answer_connect addr ((record_event (dial addr) >> open_result o) s)
unfolding connect_by answer_connect
answered_by addr (opened c) s = refl
answered_by addr (refused e) s = refl

handle_connect-IsFramed :
    (net : Network) (request : SocksRequest) → IsFramed (handle_connect net request)
unfolding handle_connect direct_connect
handle_connect-IsFramed net request =
    let (host, port) = target_host request.target in
    let addr = address_text host port in
    same-IsFramed (answered_by addr (net.tcp_connect addr))
      (connect_by-IsFramed addr (net.tcp_connect addr))

bound_addr-IsFramed : (b : Bound) → IsFramed (bound_addr b)
bound_addr-IsFramed (bound addr) = pure-IsFramed addr
bound_addr-IsFramed (unbound e) = raise-IsFramed _

handle_udp_associate-IsFramed : (net : Network) → IsFramed (handle_udp_associate net)
unfolding handle_udp_associate send_udp_reply
handle_udp_associate-IsFramed net = search (framed_rules, bound_addr-IsFramed) depth 12

dispatch-IsFramed :
    (net : Network) (command : SocksCommand) (request : SocksRequest)
    → IsFramed (dispatch net command request)
unfolding dispatch
dispatch-IsFramed net connect request = handle_connect-IsFramed net request
dispatch-IsFramed net udp_associate request = handle_udp_associate-IsFramed net
dispatch-IsFramed net bind request = send_reply-IsFramed 0x07

authenticate_if-IsFramed :
    (method : ℕ) (users : Option (List UserCredential)) → IsFramed (authenticate_if method users)
unfolding authenticate_if
authenticate_if-IsFramed method none = search framed_rules depth 6
authenticate_if-IsFramed method (some users) =
    search (framed_rules, authenticate_user-IsFramed) depth 6

-- A SOCKS5 session that ends well on some connection has used the first bytes of its input, and
-- ends in the same way on every connection that begins with them: whatever follows them, in
-- whatever segments it comes and however the stream ends, and all that follows is left.
pub handle_socks5_inner_framed :
    (net : Network) (users : Option (List UserCredential)) (s s' : Conn)
    → handle_socks5_inner net users s ≡ (done tt, s')
    → Frames (handle_socks5_inner net users) s tt s'
unfolding handle_socks5_inner
handle_socks5_inner_framed net users s s' e = session.frames s tt s' e
  where
    session : IsFramed (handle_socks5_inner net users)
    session =
        search
          (
            framed_rules, negotiate_method-IsFramed, authenticate_if-IsFramed,
            read_request-IsFramed, dispatch-IsFramed,
          )
          depth 12
