-- ===== src/Socks5/Returns.antt =====
-- Which conversations return when the peer is silent.
use peregrine_proxy.Base.{ℕ, Bool, Option, none, some, ◌≢◌, refl, List, arith}
use peregrine_proxy.Base.Text.{Bytes}
use peregrine_proxy.Config.{UserCredential}
use peregrine_proxy.Stream.{Conn, Outcome, done, fail, hung, ◌>>◌, record_event, tunnel}
use peregrine_proxy.Stream.Ends.{Ends, ends_rules}
use peregrine_proxy.Network.{Network, Connected, opened, refused, Bound, bound, unbound}
use peregrine_proxy.Upstream.{ConnectTarget, address, address_text, direct_connect, open_result}
use peregrine_proxy.Socks5.Handshake.{
  SocksCommand, connect, bind, udp_associate, SocksRequest, negotiate_method, authenticate_user,
  conclude_auth, read_port, read_ipv4, read_domain, read_ipv6, read_request, parse_command,
  read_target, send_reply,
}
use peregrine_proxy.Socks5.{
  target_host, handle_connect, answer_connect, send_udp_reply, bound_addr, handle_udp_associate,
  authenticate_if, dispatch, handle_socks5_inner,
}

negotiate_method-Ends : (users : Option (List UserCredential)) → Ends (negotiate_method users)
unfolding negotiate_method
negotiate_method-Ends users = search ends_rules depth 12

conclude_auth-Ends : (ok : Bool) → Ends (conclude_auth ok)
unfolding conclude_auth
conclude_auth-Ends ok = search ends_rules depth 12

authenticate_user-Ends : (users : List UserCredential) → Ends (authenticate_user users)
unfolding authenticate_user
authenticate_user-Ends users = search (ends_rules, conclude_auth-Ends) depth 20

parse_command-Ends : (c : ℕ) → Ends (parse_command c)
unfolding parse_command
parse_command-Ends c = record { returns = λ s. ground arith }

read_ipv4-Ends : Ends read_ipv4
unfolding read_ipv4 read_port
read_ipv4-Ends = search ends_rules depth 12

read_domain-Ends : Ends read_domain
unfolding read_domain read_port
read_domain-Ends = search ends_rules depth 16

read_ipv6-Ends : Ends read_ipv6
unfolding read_ipv6 read_port
read_ipv6-Ends = search ends_rules depth 12

read_target-Ends : (c : ℕ) → Ends (read_target c)
unfolding read_target
read_target-Ends c = record {
  returns = λ s.
      ground
        (arith, read_ipv4-Ends.returns s, read_domain-Ends.returns s, read_ipv6-Ends.returns s);
}

read_request-Ends : Ends read_request
unfolding read_request
read_request-Ends = search (ends_rules, parse_command-Ends, read_target-Ends) depth 12

send_reply-Ends : (rep : ℕ) → Ends (send_reply rep)
unfolding send_reply
send_reply-Ends rep = search ends_rules depth 4

opened-Ends : (c : Connected) → Ends (open_result c)
opened-Ends (opened c) = record { returns = λ s e. cc }
opened-Ends (refused x) = record { returns = λ s e. cc }

direct_connect-Ends : (net : Network) (target : ConnectTarget) → Ends (direct_connect net target)
unfolding direct_connect
direct_connect-Ends net (address host port) = search (ends_rules, opened-Ends) depth 6

tunnel_opened-Ends : (addr : Bytes) → Ends (send_reply 0x00 >> record_event (tunnel addr))
tunnel_opened-Ends addr = search (ends_rules, send_reply-Ends) depth 6

answer_connect-Ends :
    (addr : Bytes) (o : Outcome Conn) (s : Conn) → o ≢ hung → (answer_connect addr (o, s)).0 ≢ hung
unfolding answer_connect
answer_connect-Ends addr (done target_stream) s h e = (tunnel_opened-Ends addr).returns s e
answer_connect-Ends addr (fail x) s h e = (send_reply-Ends 0x05).returns s e
answer_connect-Ends addr hung s h e = h refl

handle_connect-Ends : (net : Network) (request : SocksRequest) → Ends (handle_connect net request)
unfolding handle_connect
handle_connect-Ends net request = record {
  returns = λ s.
      let (host, port) = target_host request.target in
      let (o, t) = direct_connect net (address host port) s in
      answer_connect-Ends (address_text host port) o t
        ((direct_connect-Ends net (address host port)).returns s);
}

bound_addr-Ends : (b : Bound) → Ends (bound_addr b)
bound_addr-Ends (bound addr) = record { returns = λ s e. cc }
bound_addr-Ends (unbound x) = record { returns = λ s e. cc }

handle_udp_associate-Ends : (net : Network) → Ends (handle_udp_associate net)
unfolding handle_udp_associate send_udp_reply
handle_udp_associate-Ends net = search (ends_rules, bound_addr-Ends) depth 8

dispatch-Ends :
    (net : Network) (command : SocksCommand) (request : SocksRequest)
    → Ends (dispatch net command request)
unfolding dispatch
dispatch-Ends net connect request = handle_connect-Ends net request
dispatch-Ends net udp_associate request = handle_udp_associate-Ends net
dispatch-Ends net bind request = send_reply-Ends 0x07

authenticate_if-Ends :
    (method : ℕ) (users : Option (List UserCredential)) → Ends (authenticate_if method users)
unfolding authenticate_if
authenticate_if-Ends method none = record { returns = λ s. ground arith }
authenticate_if-Ends method (some users) = record {
  returns = λ s. ground (arith, (authenticate_user-Ends users).returns s);
}

-- Whatever a client sends or fails to send, the server's side of a SOCKS5 session returns, once a
-- tunnel or a relay that it has opened is over: every read has its time limit.
pub handle_socks5_inner_returns :
    (net : Network) (users : Option (List UserCredential)) (s : Conn)
    → (handle_socks5_inner net users s).0 ≢ hung
unfolding handle_socks5_inner
handle_socks5_inner_returns net users s = session.returns s
  where
    session : Ends (handle_socks5_inner net users)
    session =
        search
          (
            ends_rules, negotiate_method-Ends, authenticate_if-Ends, read_request-Ends,
            dispatch-Ends,
          )
          depth 12
