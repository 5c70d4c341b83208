-- ===== src/Tests/Upstream.antt =====
-- The clients of upstream proxies in single conversations.
use peregrine_proxy.Base.{
  ap, List, ◌≡◌, refl, true, none, some, [], ◌∷◌, ◌++◌, length, take, ◌%◌, replicate, arith, inl,
}
use peregrine_proxy.Base.Text.{Bytes, codes, is_utf8, is_utf8_ascii}
use peregrine_proxy.Config.{UserCredential, UpstreamConfig, socks5, hop, nil}
use peregrine_proxy.Stream.{Conn, done, dial, tunnel}
use peregrine_proxy.Acl.Auth.{verify_credentials}
use peregrine_proxy.Acl.Auth.Laws.{verify_credentials_iff}
use peregrine_proxy.Socks5.{handle_socks5}
use peregrine_proxy.Socks5.Session.{login_then, target_text}
use peregrine_proxy.Upstream.{Rustls, wrap_tls, wrap_named, address}
use peregrine_proxy.Upstream.Socks5Client.{
  greeting, login_request, connect_request, perform_socks5_handshake, socks5_connect, after,
}
use peregrine_proxy.Upstream.Socks5Client.Wire.{perform_socks5_handshake_open, success, target_of}
use peregrine_proxy.Upstream.Socks5Client.Interop.{interop_login}
use peregrine_proxy.Upstream.Socks5Client.Wrapped.{login_request-login_then}
use peregrine_proxy.Base.Word.{to_u8}
use peregrine_proxy.Upstream.Chain.{run_hops}
use peregrine_proxy.Upstream.Chain.Hops.{run_hops_lem}
use peregrine_proxy.Upstream.Chain.Relays.{
  by_socks5, by_http, Relay, chain_of, transcript, agreement, segments,
}
use peregrine_proxy.Upstream.Chain.{chain_connect, perform_proxy_handshake}
use peregrine_proxy.Upstream.Chain.Tls.{plain_chain, chain_connect-plain_chain}
use peregrine_proxy.Upstream.Router.{from_config, connect}
use peregrine_proxy.Upstream.Router.Secure.{IsWrapped, secure_socks5, connect-IsWrapped}
use peregrine_proxy.Network.{Network, opened, bound, v4}
use peregrine_proxy.Tests.Sample.{local, tally, alice, talk}
use peregrine_proxy.Upstream.HttpClient.{connect_text, perform_http_handshake}
use peregrine_proxy.Upstream.HttpClient.Answer.{perform_http_handshake_swallows}
use peregrine_proxy.Stream.Framed.{Frames}
use peregrine_proxy.Upstream.Socks5Client.Framed.{perform_socks5_handshake_framed}

abbrev host : Bytes
host = codes "example.org"

utf8_host : is_utf8 host ≡ true
utf8_host = is_utf8_ascii host (omega arith)

abbrev caller : Bytes → Conn
caller answers = talk (answers ++ (1 ∷ []))

abbrev open_bytes : Bytes
open_bytes = (greeting none ++ connect_request host 443) ++ (2 ∷ [])

abbrev login_bytes : Bytes
login_bytes =
    (greeting (some alice) ++ (login_request alice ++ connect_request host 443)) ++ (2 ∷ [])

alice_listed : verify_credentials alice.username alice.password (alice ∷ []) ≡ true
alice_listed =
    (verify_credentials_iff alice.username alice.password (alice ∷ [])).1 (inl (refl, refl))

interop_login_example :
    (perform_socks5_handshake
        (some alice)
        (address host 443)
        (caller (0x05 ∷ 0x02 ∷ 0x01 ∷ 0x00 ∷ success))
      ≡ (
        done tt,
        record (talk (1 ∷ [])) {
          output = greeting (some alice) ++ (login_request alice ++ connect_request host 443);
        },
      ))
    × (handle_socks5 local (some (alice ∷ [])) (talk login_bytes) ≡ record (talk (2 ∷ [])) {
      output = 0x05 ∷ 0x02 ∷ 0x01 ∷ 0x00 ∷ success;
      events =
          dial (target_text (target_of host 443)) ∷ tunnel (target_text (target_of host 443)) ∷ [];
    })
interop_login_example =
    interop_login local (alice ∷ []) alice host (2 ∷ []) (1 ∷ []) 443 (talk [])
      (caller (0x05 ∷ 0x02 ∷ 0x01 ∷ 0x00 ∷ success)) (talk login_bytes) refl alice_listed
      (omega arith) (is_utf8_ascii alice.username (omega arith)) (omega arith)
      (is_utf8_ascii alice.password (omega arith)) (omega arith) utf8_host (omega arith) refl refl
      refl refl

abbrev long_name : UserCredential
long_name = record { username = replicate 256 b'a'; password = [] }

abbrev rest_of_name : Bytes
rest_of_name = []

-- A server reads an empty name, and the letters of the name as the password and what follows.
abbrev left_over : Bytes
left_over = replicate 158 b'a' ++ 0 ∷ []

misread : login_request long_name ++ [] ≡ login_then rest_of_name (replicate 97 b'a') left_over
unfolding to_u8
misread = refl

login_request-login_then_example :
    (length rest_of_name ≡ length long_name.username % 256)
    × (rest_of_name ≡ take (length long_name.username % 256) long_name.username)
login_request-login_then_example =
    login_request-login_then long_name rest_of_name (replicate 97 b'a') [] left_over misread

abbrev ok_line : Bytes
ok_line = codes "HTTP/1.1 200 OK"

abbrev first : Relay
first = record {
  host = codes "relay.example";
  port = 1080;
  auth = none;
  tls = none;
  speaks = by_socks5;
}

-- An HTTP proxy between the others.
abbrev second : Relay
second = record {
  host = codes "web.example";
  port = 3128;
  auth = some alice;
  tls = none;
  speaks = by_http (codes "HTTP/1.1 200 OK" ++ 13 ∷ 10 ∷ 13 ∷ 10 ∷ []);
}

abbrev third : Relay
third = record {
  host = codes "exit.example";
  port = 1081;
  auth = none;
  tls = none;
  speaks = by_socks5;
}

abbrev relays : List Relay
relays = first ∷ second ∷ third ∷ []

abbrev chained : Conn
chained = record (talk (agreement relays (7 ∷ []))) { segments = segments relays [] }

run_hops_lem_example :
    run_hops tally (chain_of relays) (address host 443) chained
    ≡ (done tt, record (talk (7 ∷ [])) { output = transcript tally relays host 443 })
run_hops_lem_example =
    run_hops_lem tally host 443 relays (7 ∷ []) [] chained
      (
        (omega arith, tt),
        ((omega arith, (refl, omega arith, omega arith)), ((omega arith, tt), tt)),
      )
      refl refl refl

-- Every name is one, and TLS leaves the connection as it is.
abbrev plain_wire : Rustls
plain_wire = record {
  server_roots = codes "root" ∷ [];
  server_name = some;
  handshake = λ connector name c. done c;
}

-- The same wire, with one byte and then a SOCKS5 proxy that accepts.
abbrev accepting : Network
accepting = record {
  tcp_connect = λ addr. opened (talk (0x05 ∷ 0x00 ∷ success));
  udp_bind = bound (v4 (127 ∷ 0 ∷ 0 ∷ 1 ∷ []) 5000);
}

connected :
    connect tally accepting plain_wire
      (from_config (socks5 (codes "exit.example:1080") none (some true)))
      (address host 443)
    ≡ done (record (talk []) { output = greeting none ++ connect_request host 443 })
unfolding connect from_config socks5_connect wrap_tls wrap_named
connected =
    ap after
      (perform_socks5_handshake_open none host [] 443 (talk (0x05 ∷ 0x00 ∷ success)) refl refl)

connect-IsWrapped_example :
    (stream tls : Conn) × (accepting.tcp_connect (codes "exit.example:1080") ≡ opened stream)
    × IsWrapped plain_wire (codes "exit.example:1080") stream tls
    × (perform_proxy_handshake tally
          (socks5 (codes "exit.example:1080") none (some true))
          (address host 443)
          tls
        ≡ (done tt, record (talk []) { output = greeting none ++ connect_request host 443 }))
connect-IsWrapped_example =
    connect-IsWrapped tally accepting plain_wire
      (socks5 (codes "exit.example:1080") none (some true)) (codes "exit.example:1080")
      (address host 443) (record (talk []) { output = greeting none ++ connect_request host 443 })
      (secure_socks5 (codes "exit.example:1080") none) connected

abbrev secure : UpstreamConfig
secure = socks5 (codes "exit.example:1080") (some alice) (some true)

chain_connect-plain_chain_example :
    chain_connect tally local (plain_chain (hop secure (hop secure nil))) (address host 443)
    ≡ chain_connect tally local (hop secure (hop secure nil)) (address host 443)
chain_connect-plain_chain_example =
    chain_connect-plain_chain tally local (hop secure (hop secure nil)) (address host 443)

abbrev accepted : Bytes
accepted = codes "HTTP/1.1 200 OK" ++ 13 ∷ 10 ∷ 13 ∷ 10 ∷ []

-- A server that greets first, through an HTTP proxy.
abbrev banner : Conn
banner = record (talk ((accepted ++ codes "220 mail") ++ codes "!")) { segments = 27 ∷ [] }

perform_http_handshake_swallows_example :
    perform_http_handshake tally none (address host 25) banner
    ≡ (done tt, record (talk (codes "!")) { output = connect_text tally none host 25 })
perform_http_handshake_swallows_example =
    perform_http_handshake_swallows tally none host accepted (codes "220 mail") (codes "!") 25 []
      banner refl refl refl (omega arith) refl

abbrev greeted : Conn
greeted = talk (0x05 ∷ 0x00 ∷ (success ++ codes "220 mail"))

abbrev tunnelled : Conn
tunnelled = record (talk (codes "220 mail")) { output = greeting none ++ connect_request host 25 }

perform_socks5_handshake_framed_example :
    Frames (perform_socks5_handshake none (address host 25)) greeted tt tunnelled
perform_socks5_handshake_framed_example =
    perform_socks5_handshake_framed none (address host 25) greeted tunnelled
      (perform_socks5_handshake_open none host (codes "220 mail") 25 greeted refl refl)
