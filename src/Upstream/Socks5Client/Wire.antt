-- ===== src/Upstream/Socks5Client/Wire.antt =====
-- What the client writes when its proxy follows the protocol, and that every refusal is an error.
use mathlib.Core.List.{append_assoc}
use peregrine_proxy.Base.{
  ℕ, ◌∙◌, ◌≤◌, ◌<◌, ◌≡◌, refl, ap, true, Option, none, some, [], ◌∷◌, ◌++◌, length, arith,
}
use peregrine_proxy.Base.Text.{Bytes, is_utf8}
use peregrine_proxy.Base.Word.{to_u8_small, to_be_bytes}
use peregrine_proxy.Base.IpParse.{parse_ipv4, parse_ipv6}
use peregrine_proxy.Base.IpParse.Sizes.{parse_ipv4-length, parse_ipv6-length}
use peregrine_proxy.Config.{UserCredential}
use peregrine_proxy.Stream.{Conn, done}
use peregrine_proxy.Stream.Laws.{read_exact-append, write_all_open}
use peregrine_proxy.Socks5.Handshake.{connect, TargetAddr, ipv4, domain, ipv6}
use peregrine_proxy.Socks5.Handshake.Request.{request_bytes, IsTarget}
use peregrine_proxy.Upstream.{address}
use peregrine_proxy.Upstream.Socks5Client.{
  greeting, login_request, log_in, answer_method, address_by, host_bytes, connect_request,
  discard_bound, request_connect, perform_socks5_handshake,
}

target_by : Option Bytes → Option Bytes → Bytes → ℕ → TargetAddr
target_by (some octets) o host port = ipv4 octets port
target_by none (some octets) host port = ipv6 octets port
target_by none none host port = domain host port

-- The target that a host and a port stand for.
unfoldable pub target_of : Bytes → ℕ → TargetAddr
unfolding target_by
target_of host port = target_by (parse_ipv4 host) (parse_ipv6 host) host port

-- A host that the protocol can carry: any IP address, or a name of at most 255 bytes.
target_by-IsTarget :
    (a b : Option Bytes) (host : Bytes) (port : ℕ)
    → parse_ipv4 host ≡ a
    → parse_ipv6 host ≡ b
    → length host ≤ 255
    → is_utf8 host ≡ true
    → port < 65536
    → IsTarget (target_by a b host port)
unfolding target_by
target_by-IsTarget (some octets) b host port e k h u p = (parse_ipv4-length host e, p)
target_by-IsTarget none (some octets) host port e k h u p = (parse_ipv6-length host k, p)
target_by-IsTarget none none host port e k h u p = (h, u, p)

pub target_of-IsTarget :
    (host : Bytes) (port : ℕ)
    → length host ≤ 255
    → is_utf8 host ≡ true
    → port < 65536
    → IsTarget (target_of host port)
unfolding target_of
target_of-IsTarget host port =
    target_by-IsTarget (parse_ipv4 host) (parse_ipv6 host) host port refl refl

request_by :
    (a b : Option Bytes) (host rest : Bytes) (port : ℕ)
    → length host ≤ 255
    → (0x05 ∷ 0x01 ∷ 0x00 ∷ (address_by a b host ++ to_be_bytes port)) ++ rest
      ≡ request_bytes connect (target_by a b host port) rest
unfolding address_by target_by
request_by (some octets) b host rest port h =
    ap (λ r. 0x05 ∷ 0x01 ∷ 0x00 ∷ 0x01 ∷ r) (append_assoc octets (to_be_bytes port) rest)
request_by none (some octets) host rest port h =
    ap (λ r. 0x05 ∷ 0x01 ∷ 0x00 ∷ 0x04 ∷ r) (append_assoc octets (to_be_bytes port) rest)
request_by none none host rest port h = rw (to_u8_small (length host) (omega arith)) (
    ap (λ r. 0x05 ∷ 0x01 ∷ 0x00 ∷ 0x03 ∷ length host ∷ r)
      (append_assoc host (to_be_bytes port) rest))

-- The client's request is the wire form of its target.
pub connect_request_lem :
    (host rest : Bytes) (port : ℕ)
    → length host ≤ 255
    → connect_request host port ++ rest ≡ request_bytes connect (target_of host port) rest
unfolding connect_request host_bytes target_of
connect_request_lem host rest port h =
    request_by (parse_ipv4 host) (parse_ipv6 host) host rest port h

-- A host that reads as an IPv4 address is sent as this address.
pub connect_request-ipv4 :
    (host octets rest : Bytes) (port : ℕ)
    → parse_ipv4 host ≡ some octets
    → connect_request host port ++ rest ≡ request_bytes connect (ipv4 octets port) rest
unfolding connect_request host_bytes address_by
connect_request-ipv4 host octets rest port e =
    ap
      (λ o.
        (0x05 ∷ 0x01 ∷ 0x00 ∷ (address_by o (parse_ipv6 host) host ++ to_be_bytes port)) ++ rest)
      e
    ∙ ap (λ r. 0x05 ∷ 0x01 ∷ 0x00 ∷ 0x01 ∷ r) (append_assoc octets (to_be_bytes port) rest)

-- The reply of a proxy that has connected.
abbrev pub success : Bytes
success = 0x05 ∷ 0x00 ∷ 0x00 ∷ 0x01 ∷ 0x00 ∷ 0x00 ∷ 0x00 ∷ 0x00 ∷ 0x00 ∷ 0x00 ∷ []

request_connect_lem :
    (host rest : Bytes) (port : ℕ) (s : Conn)
    → s.input ≡ success ++ rest
    → s.room ≡ none
    → request_connect host port s
      ≡ (done tt, record s { input = rest; output = s.output ++ connect_request host port })
unfolding request_connect discard_bound
request_connect_lem host rest port s e r =
    let sent : Conn = record s { output = s.output ++ connect_request host port } in
    ground (
      arith,
      write_all_open (connect_request host port) s r,
      read_exact-append 4 (0x05 ∷ 0x00 ∷ 0x00 ∷ 0x01 ∷ [])
          (0x00 ∷ 0x00 ∷ 0x00 ∷ 0x00 ∷ 0x00 ∷ 0x00 ∷ rest) sent e refl,
      read_exact-append 6 (0x00 ∷ 0x00 ∷ 0x00 ∷ 0x00 ∷ 0x00 ∷ 0x00 ∷ []) rest
          (record sent { input = 0x00 ∷ 0x00 ∷ 0x00 ∷ 0x00 ∷ 0x00 ∷ 0x00 ∷ rest }) refl refl,
    )

-- With a proxy that asks for no password, the client sends its greeting and its request.
pub perform_socks5_handshake_open :
    (auth : Option UserCredential) (host rest : Bytes) (port : ℕ) (s : Conn)
    → s.input ≡ 0x05 ∷ 0x00 ∷ (success ++ rest)
    → s.room ≡ none
    → perform_socks5_handshake auth (address host port) s ≡ (
      done tt,
      record s { input = rest; output = s.output ++ (greeting auth ++ connect_request host port) },
    )
unfolding perform_socks5_handshake answer_method
perform_socks5_handshake_open auth host rest port s e r =
    let greeted : Conn = record s { output = s.output ++ greeting auth } in
    ground (
      arith,
      write_all_open (greeting auth) s r,
      read_exact-append 2 (0x05 ∷ 0x00 ∷ []) (success ++ rest) greeted e refl,
      request_connect_lem host rest port (record greeted { input = success ++ rest }) refl r,
      append_assoc s.output (greeting auth) (connect_request host port),
    )

-- With a proxy that asks for a password and accepts it, the login stands between the two.
pub perform_socks5_handshake_login :
    (auth : UserCredential) (host rest : Bytes) (port : ℕ) (s : Conn)
    → s.input ≡ 0x05 ∷ 0x02 ∷ 0x01 ∷ 0x00 ∷ (success ++ rest)
    → s.room ≡ none
    → perform_socks5_handshake (some auth) (address host port) s ≡ (
      done tt,
      record s {
        input = rest;
        output =
            s.output ++ (greeting (some auth) ++ (login_request auth ++ connect_request host port));
      },
    )
unfolding perform_socks5_handshake answer_method log_in
perform_socks5_handshake_login auth host rest port s e r =
    let greeted : Conn = record s { output = s.output ++ greeting (some auth) } in
    let after_method : Conn = record greeted { input = 0x01 ∷ 0x00 ∷ (success ++ rest) } in
    let logged_in : Conn = record after_method { output = greeted.output ++ login_request auth } in
    ground (
      arith,
      write_all_open (greeting (some auth)) s r,
      read_exact-append 2 (0x05 ∷ 0x02 ∷ []) (0x01 ∷ 0x00 ∷ (success ++ rest)) greeted e refl,
      write_all_open (login_request auth) after_method r,
      read_exact-append 2 (0x01 ∷ 0x00 ∷ []) (success ++ rest) logged_in refl refl,
      request_connect_lem host rest port (record logged_in { input = success ++ rest }) refl r,
      append_assoc s.output (greeting (some auth)) (login_request auth),
      append_assoc s.output (greeting (some auth) ++ login_request auth)
          (connect_request host port),
      append_assoc (greeting (some auth)) (login_request auth) (connect_request host port),
    )
