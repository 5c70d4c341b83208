-- ===== src/Socks5/Session.antt =====
-- Whole sessions: what the server answers and what it opens, for each command.
use mathlib.Core.List.{append-nil, append_assoc}
use peregrine_proxy.Base.{
  ℕ, ◌≡◌, refl, true, none, some, List, [], ◌∷◌, ◌++◌, length, arith, contains,
}
use peregrine_proxy.Base.Text.{Bytes, is_utf8}
use peregrine_proxy.Config.{UserCredential}
use peregrine_proxy.Stream.{Conn, Event, dial, tunnel, relay}
use peregrine_proxy.Stream.Laws.{write_all_open}
use peregrine_proxy.Network.{Network, Connected, opened, refused, Bound, bound, unbound}
use peregrine_proxy.Upstream.{address_text, direct_connect}
use peregrine_proxy.Acl.Auth.{verify_credentials}
use peregrine_proxy.Socks5.Handshake.{
  SocksCommand, connect, bind, udp_associate, TargetAddr, SocksRequest, send_reply,
}
use peregrine_proxy.Socks5.Handshake.Negotiate.{negotiate_method_lem}
use peregrine_proxy.Socks5.Handshake.Authenticate.{authenticate_user_lem}
use peregrine_proxy.Socks5.Handshake.Request.{IsTarget, request_bytes, read_request_lem}
use peregrine_proxy.Socks5.{
  target_host, handle_connect, send_udp_reply, address_bytes, handle_udp_associate, dispatch,
  authenticate_if, handle_socks5, handle_socks5_inner,
}

-- The address that a CONNECT request leads to.
abbrev pub target_text : TargetAddr → Bytes
target_text target = let (host, port) = target_host target in address_text host port

-- A reply without an address of interest.
abbrev pub plain_reply : ℕ → Bytes
plain_reply rep = 0x05 ∷ rep ∷ 0x00 ∷ 0x01 ∷ 0x00 ∷ 0x00 ∷ 0x00 ∷ 0x00 ∷ 0x00 ∷ 0x00 ∷ []

abbrev connect_answer : Connected → Bytes → Bytes × List Event
connect_answer (opened c) text = (plain_reply 0x00, dial text ∷ tunnel text ∷ [])
connect_answer (refused e) text = (plain_reply 0x05, dial text ∷ [])

abbrev associate_answer : Bound → Bytes × List Event
associate_answer (bound addr) = (0x05 ∷ 0x00 ∷ 0x00 ∷ address_bytes addr, relay ∷ [])
associate_answer (unbound e) = ([], [])

-- What the server writes for a request, and what it does in the network: CONNECT opens the
-- target and copies, or reports the refusal; UDP ASSOCIATE tells its relay's address; BIND is not
-- supported.
abbrev pub answer : Network → SocksCommand → TargetAddr → Bytes × List Event
answer net connect target =
    connect_answer (net.tcp_connect (target_text target)) (target_text target)
answer net udp_associate target = associate_answer net.udp_bind
answer net bind target = (plain_reply 0x07, [])

-- The login message in front of what follows it.
abbrev pub login_then : Bytes → Bytes → Bytes → Bytes
login_then name password rest =
    0x01 ∷ length name ∷ (name ++ (length password ∷ (password ++ rest)))

after_connect : Conn → Bytes × List Event → Conn
after_connect s (bytes, events) = record s {
  output = s.output ++ bytes;
  events = s.events ++ events;
}

handle_connect_lem :
    (c : Connected) (net : Network) (request : SocksRequest) (s : Conn)
    → net.tcp_connect (target_text request.target) ≡ c
    → s.room ≡ none
    → (handle_connect net request s).1
      ≡ after_connect s (connect_answer c (target_text request.target))
unfolding handle_connect direct_connect send_reply after_connect
handle_connect_lem (opened c) net request s e r = ground (
  arith,
  write_all_open (plain_reply 0x00)
      (record s { events = s.events ++ dial (target_text request.target) ∷ [] }) r,
  append_assoc s.events (dial (target_text request.target) ∷ [])
      (tunnel (target_text request.target) ∷ []),
)
handle_connect_lem (refused x) net request s e r = ground (
  arith,
  write_all_open (plain_reply 0x05)
      (record s { events = s.events ++ dial (target_text request.target) ∷ [] }) r,
)

handle_udp_associate_lem :
    (b : Bound) (net : Network) (s : Conn)
    → net.udp_bind ≡ b
    → s.room ≡ none
    → (handle_udp_associate net s).1 ≡ after_connect s (associate_answer b)
unfolding handle_udp_associate send_udp_reply after_connect
handle_udp_associate_lem (bound addr) net s e r =
    ground (arith, write_all_open (0x05 ∷ 0x00 ∷ 0x00 ∷ address_bytes addr) s r)
handle_udp_associate_lem (unbound x) net s e r =
    ground (arith, append-nil s.output, append-nil s.events)

bind_lem :
    (s : Conn) → s.room ≡ none → (send_reply 0x07 s).1 ≡ after_connect s (plain_reply 0x07, [])
unfolding send_reply after_connect
bind_lem s r = ground (arith, write_all_open (plain_reply 0x07) s r, append-nil s.events)

dispatch_lem :
    (net : Network) (command : SocksCommand) (target : TargetAddr) (s : Conn)
    → s.room ≡ none
    → (dispatch net command (record { command = command; target = target }) s).1
      ≡ after_connect s (answer net command target)
unfolding dispatch
dispatch_lem net connect target s r =
    handle_connect_lem (net.tcp_connect (target_text target)) net
      (record { command = connect; target = target }) s refl r
dispatch_lem net udp_associate target s r = handle_udp_associate_lem net.udp_bind net s refl r
dispatch_lem net bind target s r = bind_lem s r

-- A client that offers no password method is served by a server without users: the answer to the
-- greeting, then the answer to the command, and the rest of its bytes is left for the tunnel.
pub handle_socks5_open :
    (net : Network) (command : SocksCommand) (target : TargetAddr) (methods rest : Bytes) (s : Conn)
    → s.input ≡ 0x05 ∷ length methods ∷ (methods ++ request_bytes command target rest)
    → s.room ≡ none
    → contains methods 0x00 ≡ true
    → IsTarget target
    → handle_socks5 net none s ≡ record s {
      input = rest;
      output = s.output ++ 0x05 ∷ 0x00 ∷ (answer net command target).0;
      events = s.events ++ (answer net command target).1;
    }
unfolding handle_socks5 handle_socks5_inner authenticate_if after_connect
handle_socks5_open net command target methods rest s e r offered fits =
    let after_greeting : Conn = record s {
      input = request_bytes command target rest;
      output = s.output ++ 0x05 ∷ 0x00 ∷ [];
    } in
    ground (
      arith,
      negotiate_method_lem none methods (request_bytes command target rest) s e r,
      read_request_lem command target rest after_greeting fits refl,
      dispatch_lem net command target (record after_greeting { input = rest }) r,
      append_assoc s.output (0x05 ∷ 0x00 ∷ []) (answer net command target).0,
    )

-- A client that offers the password method and logs in with configured credentials is served by a
-- server with users in the same way, after the two answers to the greeting and to the login.
pub handle_socks5_login :
    (net : Network) (users : List UserCredential) (name password : Bytes) (command : SocksCommand)
    (target : TargetAddr) (methods rest : Bytes) (s : Conn)
    → s.input
      ≡ 0x05
        ∷ length methods
        ∷ (methods ++ (login_then name password (request_bytes command target rest)))
    → s.room ≡ none
    → contains methods 0x02 ≡ true
    → is_utf8 name ≡ true
    → is_utf8 password ≡ true
    → verify_credentials name password users ≡ true
    → IsTarget target
    → handle_socks5 net (some users) s ≡ record s {
      input = rest;
      output = s.output ++ 0x05 ∷ 0x02 ∷ 0x01 ∷ 0x00 ∷ (answer net command target).0;
      events = s.events ++ (answer net command target).1;
    }
unfolding handle_socks5 handle_socks5_inner authenticate_if after_connect
handle_socks5_login net users name password command target methods rest s e r offered un up listed
      fits =
    let request = request_bytes command target rest in
    let after_greeting : Conn = record s {
      input = login_then name password request;
      output = s.output ++ 0x05 ∷ 0x02 ∷ [];
    } in
    let after_login : Conn = record s {
      input = request;
      output = (s.output ++ 0x05 ∷ 0x02 ∷ []) ++ 0x01 ∷ 0x00 ∷ [];
    } in
    ground (
      arith,
      negotiate_method_lem (some users) methods (login_then name password request) s e r,
      authenticate_user_lem users name password request after_greeting refl r un up,
      read_request_lem command target rest after_login fits refl,
      dispatch_lem net command target (record after_login { input = rest }) r,
      append_assoc s.output (0x05 ∷ 0x02 ∷ []) (0x01 ∷ 0x00 ∷ []),
      append_assoc s.output (0x05 ∷ 0x02 ∷ 0x01 ∷ 0x00 ∷ []) (answer net command target).0,
    )
