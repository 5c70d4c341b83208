-- ===== src/Upstream/Socks5Client/Interop.antt =====
-- The SOCKS5 client of src/upstream against the SOCKS5 server of src/protocol/socks5: what each
-- writes is what the other was waiting for.
use mathlib.Core.List.{append_assoc}
use peregrine_proxy.Base.{
  Option, ℕ, ◌≤◌, ◌<◌, ◌≡◌, refl, ◌∙◌, ap, true, none, some, List, [], ◌∷◌, ◌++◌, length, arith,
}
use peregrine_proxy.Base.Text.{Bytes, is_utf8}
use peregrine_proxy.Base.Word.{to_u8_small}
use peregrine_proxy.Config.{UserCredential}
use peregrine_proxy.Stream.{Conn, done, dial, tunnel}
use peregrine_proxy.Network.{Network, opened}
use peregrine_proxy.Acl.Auth.{verify_credentials}
use peregrine_proxy.Socks5.{handle_socks5}
use peregrine_proxy.Socks5.Handshake.{connect}
use peregrine_proxy.Socks5.Session.{
  target_text, login_then, handle_socks5_open, handle_socks5_login,
}
use peregrine_proxy.Socks5.Handshake.Request.{request_bytes}
use peregrine_proxy.Upstream.{address}
use peregrine_proxy.Upstream.Socks5Client.{
  greeting, login_request, connect_request, perform_socks5_handshake,
}
use peregrine_proxy.Upstream.Socks5Client.Wire.{
  target_of, target_of-IsTarget, connect_request_lem, success, perform_socks5_handshake_open,
  perform_socks5_handshake_login,
}

-- A server without users serves what the client says to reach a host, and leaves what follows.
pub server_reads_open :
    (net : Network) (auth : Option UserCredential) (host payload : Bytes) (port : ℕ) (t s : Conn)
    → net.tcp_connect (target_text (target_of host port)) ≡ opened t
    → s.input ≡ (greeting auth ++ connect_request host port) ++ payload
    → s.room ≡ none
    → length host ≤ 255
    → is_utf8 host ≡ true
    → port < 65536
    → handle_socks5 net none s ≡ record s {
      input = payload;
      output = s.output ++ 0x05 ∷ 0x00 ∷ success;
      events =
          s.events
          ++ dial (target_text (target_of host port))
            ∷ tunnel (target_text (target_of host port))
            ∷ [];
    }
server_reads_open net none host payload port t s reached e r h u p = rw reached at (
    handle_socks5_open net connect (target_of host port) (0x00 ∷ []) payload s
      (e ∙ ap (λ q. 0x05 ∷ 0x01 ∷ 0x00 ∷ q) (connect_request_lem host payload port h)) r refl
      (target_of-IsTarget host port h u p))
server_reads_open net (some auth) host payload port t s reached e r h u p = rw reached at (
    handle_socks5_open net connect (target_of host port) (0x00 ∷ 0x02 ∷ []) payload s
      (e ∙ ap (λ q. 0x05 ∷ 0x02 ∷ 0x00 ∷ 0x02 ∷ q) (connect_request_lem host payload port h)) r refl
      (target_of-IsTarget host port h u p))

-- Without users: for a reachable target, the client writes a greeting and a request, the server
-- that reads these bytes connects to the target and writes two answers, and the client that reads
-- these answers succeeds. Both leave what follows for the tunnel.
pub interop_open :
    (net : Network) (host data_up data_down : Bytes) (port : ℕ) (t c s : Conn)
    → net.tcp_connect (target_text (target_of host port)) ≡ opened t
    → length host ≤ 255
    → is_utf8 host ≡ true
    → port < 65536
    → c.input ≡ (0x05 ∷ 0x00 ∷ success) ++ data_down
    → c.room ≡ none
    → s.input ≡ (greeting none ++ connect_request host port) ++ data_up
    → s.room ≡ none
    → (perform_socks5_handshake none (address host port) c ≡ (
      done tt,
      record c {
        input = data_down;
        output = c.output ++ (greeting none ++ connect_request host port);
      },
    ))
      × (handle_socks5 net none s ≡ record s {
        input = data_up;
        output = s.output ++ 0x05 ∷ 0x00 ∷ success;
        events =
            s.events
            ++ dial (target_text (target_of host port))
              ∷ tunnel (target_text (target_of host port))
              ∷ [];
      })
interop_open net host data_up data_down port t c s reached h u p ec rc es rs = (
  perform_socks5_handshake_open none host data_down port c ec rc,
  server_reads_open net none host data_up port t s reached es rs h u p,
)

login_request_lem :
    (auth : UserCredential) (rest : Bytes)
    → length auth.username ≤ 255
    → length auth.password ≤ 255
    → login_request auth ++ rest ≡ login_then auth.username auth.password rest
login_request_lem auth rest hu hp =
    rw
      (
        to_u8_small (length auth.username) (omega arith),
        to_u8_small (length auth.password) (omega arith),
      )
      (ap (λ r. 0x01 ∷ length auth.username ∷ r)
        (append_assoc auth.username (length auth.password ∷ auth.password) rest))

-- A server with users serves what a client with listed credentials says, and leaves what follows.
pub server_reads_login :
    (net : Network) (users : List UserCredential) (auth : UserCredential) (host payload : Bytes)
    (port : ℕ) (t s : Conn)
    → net.tcp_connect (target_text (target_of host port)) ≡ opened t
    → verify_credentials auth.username auth.password users ≡ true
    → length auth.username ≤ 255
    → is_utf8 auth.username ≡ true
    → length auth.password ≤ 255
    → is_utf8 auth.password ≡ true
    → length host ≤ 255
    → is_utf8 host ≡ true
    → port < 65536
    → s.input
      ≡ (greeting (some auth) ++ (login_request auth ++ connect_request host port)) ++ payload
    → s.room ≡ none
    → handle_socks5 net (some users) s ≡ record s {
      input = payload;
      output = s.output ++ 0x05 ∷ 0x02 ∷ 0x01 ∷ 0x00 ∷ success;
      events =
          s.events
          ++ dial (target_text (target_of host port))
            ∷ tunnel (target_text (target_of host port))
            ∷ [];
    }
server_reads_login net users auth host payload port t s reached listed lu uu lp up h u p e r =
    rw reached at (
      handle_socks5_login net users auth.username auth.password connect (target_of host port)
        (0x00 ∷ 0x02 ∷ []) payload s (e ∙ ap (λ q. 0x05 ∷ 0x02 ∷ 0x00 ∷ 0x02 ∷ q) sent) r refl uu up
        listed (target_of-IsTarget host port h u p))
  where
    sent :
        (login_request auth ++ connect_request host port) ++ payload
        ≡ login_then auth.username auth.password
            (request_bytes connect (target_of host port) payload)
    sent =
        append_assoc (login_request auth) (connect_request host port) payload
        ∙ (ap (λ r. login_request auth ++ r) (connect_request_lem host payload port h)
            ∙ login_request_lem auth (request_bytes connect (target_of host port) payload) lu lp)

-- With users: the same, with the client's login between greeting and request, if its credentials
-- are configured on the server and fit the length bytes.
pub interop_login :
    (net : Network) (users : List UserCredential) (auth : UserCredential)
    (host data_up data_down : Bytes) (port : ℕ) (t c s : Conn)
    → net.tcp_connect (target_text (target_of host port)) ≡ opened t
    → verify_credentials auth.username auth.password users ≡ true
    → length auth.username ≤ 255
    → is_utf8 auth.username ≡ true
    → length auth.password ≤ 255
    → is_utf8 auth.password ≡ true
    → length host ≤ 255
    → is_utf8 host ≡ true
    → port < 65536
    → c.input ≡ (0x05 ∷ 0x02 ∷ 0x01 ∷ 0x00 ∷ success) ++ data_down
    → c.room ≡ none
    → s.input
      ≡ (greeting (some auth) ++ (login_request auth ++ connect_request host port)) ++ data_up
    → s.room ≡ none
    → (perform_socks5_handshake (some auth) (address host port) c ≡ (
      done tt,
      record c {
        input = data_down;
        output =
            c.output ++ (greeting (some auth) ++ (login_request auth ++ connect_request host port));
      },
    ))
      × (handle_socks5 net (some users) s ≡ record s {
        input = data_up;
        output = s.output ++ 0x05 ∷ 0x02 ∷ 0x01 ∷ 0x00 ∷ success;
        events =
            s.events
            ++ dial (target_text (target_of host port))
              ∷ tunnel (target_text (target_of host port))
              ∷ [];
      })
interop_login net users auth host data_up data_down port t c s reached listed lu uu lp up h u p ec
      rc es rs =
    (
      perform_socks5_handshake_login auth host data_down port c ec rc,
      server_reads_login net users auth host data_up port t s reached listed lu uu lp up h u p es
          rs,
    )
