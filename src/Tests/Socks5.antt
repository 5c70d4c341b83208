-- ===== src/Tests/Socks5.antt =====
-- The SOCKS5 server in single conversations.
use peregrine_proxy.Base.{All, ℕ, ◌≡◌, ◌≢◌, refl, ◌∙◌, true, none, some, [], ◌∷◌, ◌++◌, arith, inl}
use peregrine_proxy.Base.Text.{Bytes, codes, is_utf8, is_utf8_ascii}
use peregrine_proxy.Stream.{Conn, hung, done}
use peregrine_proxy.Acl.Auth.{verify_credentials}
use peregrine_proxy.Acl.Auth.Laws.{IsListed, verify_credentials_iff}
use peregrine_proxy.Socks5.{handle_socks5, handle_socks5_inner}
use peregrine_proxy.Socks5.Returns.{handle_socks5_inner_returns}
use peregrine_proxy.Socks5.Access.{handle_socks5-authenticated}
use peregrine_proxy.Socks5.Session.{answer, handle_socks5_open, handle_socks5_login, login_then}
use peregrine_proxy.Socks5.Handshake.{
  connect, udp_associate, domain, negotiate_method, authenticate_user, read_request, TargetAddr,
}
use peregrine_proxy.Socks5.Handshake.Negotiate.{negotiate_method_lem}
use peregrine_proxy.Socks5.Handshake.Authenticate.{authenticate_user_lem, login}
use peregrine_proxy.Socks5.Handshake.Request.{
  read_request_lem, request_bytes, IsTarget, target_bytes,
}
use peregrine_proxy.Base.Word.{to_be_bytes}
use peregrine_proxy.Socks5.Handshake.Targets.{IsByte}
use peregrine_proxy.Socks5.Handshake.Sound.{read_request-accepts}
use peregrine_proxy.Tests.Sample.{local, alice, talk}
use peregrine_proxy.Base.Word.{from_be_bytes}
use peregrine_proxy.Base.Text.{from_utf8}
use peregrine_proxy.Stream.{read_exact, write_all}
use peregrine_proxy.Stream.Framed.{Frames}
use peregrine_proxy.Socks5.{dispatch}
use peregrine_proxy.Socks5.Framed.{handle_socks5_inner_framed}
use peregrine_proxy.Socks5.Handshake.{bind, select_method, read_target, parse_command, send_reply}

abbrev site : TargetAddr
site = domain (codes "example.org") 443

site-IsTarget : IsTarget site
site-IsTarget = (omega arith, is_utf8_ascii (codes "example.org") (omega arith), omega arith)

abbrev open_client : Conn
open_client = talk (0x05 ∷ 0x01 ∷ 0x00 ∷ request_bytes connect site [])

handle_socks5_open_example : handle_socks5 local none open_client ≡ record open_client {
  input = [];
  output = 0x05 ∷ 0x00 ∷ (answer local connect site).0;
  events = (answer local connect site).1;
}
handle_socks5_open_example =
    handle_socks5_open local connect site (0x00 ∷ []) [] open_client refl refl refl site-IsTarget

abbrev name : Bytes
name = codes "alice"

abbrev password : Bytes
password = codes "s3:cret"

utf8_name : is_utf8 name ≡ true
utf8_name = is_utf8_ascii name (omega arith)

utf8_password : is_utf8 password ≡ true
utf8_password = is_utf8_ascii password (omega arith)

abbrev login_client : Conn
login_client =
    talk
      (0x05 ∷ 0x02 ∷ 0x00 ∷ 0x02 ∷ login_then name password (request_bytes udp_associate site []))

alice_listed : verify_credentials name password (alice ∷ []) ≡ true
alice_listed = (verify_credentials_iff name password (alice ∷ [])).1 (inl (refl, refl))

login_served : handle_socks5 local (some (alice ∷ [])) login_client ≡ record login_client {
  input = [];
  output = 0x05 ∷ 0x02 ∷ 0x01 ∷ 0x00 ∷ (answer local udp_associate site).0;
  events = (answer local udp_associate site).1;
}
login_served =
    handle_socks5_login local (alice ∷ []) name password udp_associate site (0x00 ∷ 0x02 ∷ []) []
      login_client refl refl refl utf8_name utf8_password alice_listed site-IsTarget

handle_socks5_login_example :
    handle_socks5 local (some (alice ∷ [])) login_client ≡ record login_client {
      input = [];
      output = 0x05 ∷ 0x02 ∷ 0x01 ∷ 0x00 ∷ (answer local udp_associate site).0;
      events = (answer local udp_associate site).1;
    }
handle_socks5_login_example =
    handle_socks5_login local (alice ∷ []) name password udp_associate site (0x00 ∷ 0x02 ∷ []) []
      login_client refl refl refl utf8_name utf8_password alice_listed site-IsTarget

login_acted : (handle_socks5 local (some (alice ∷ [])) login_client).events ≢ login_client.events
login_acted = rw login_served (λ e. cc)

handle_socks5-authenticated_example :
    (n : Bytes) × (p : Bytes) × (rest : Bytes) × (t : Conn) × IsListed n p (alice ∷ [])
    × (negotiate_method (some (alice ∷ [])) login_client ≡ (done 2, t))
    × (t.input ≡ login n p ++ rest)
handle_socks5-authenticated_example =
    handle_socks5-authenticated local (alice ∷ []) login_client login_acted

abbrev greeter : Conn
greeter = talk (0x05 ∷ 0x01 ∷ 0x00 ∷ [])

greeted :
    negotiate_method none greeter
    ≡ (done 0, record greeter { input = []; output = 0x05 ∷ 0x00 ∷ [] })
greeted = negotiate_method_lem none (0x00 ∷ []) [] greeter refl refl

abbrev login_only : Conn
login_only = talk (0x01 ∷ 0x05 ∷ (name ++ (0x07 ∷ (password ++ []))))

accepted :
    authenticate_user (alice ∷ []) login_only
    ≡ (done tt, record login_only { input = []; output = 0x01 ∷ 0x00 ∷ [] })
accepted =
    authenticate_user_lem (alice ∷ []) name password [] login_only refl refl utf8_name utf8_password
    ∙ rw alice_listed refl

site_bytes : All IsByte (request_bytes connect site (0x16 ∷ []))
unfolding to_be_bytes
site_bytes = omega arith

read_request-accepts_example :
    IsTarget site
    × (rsv : ℕ) × (request_bytes connect site (0x16 ∷ [])
        ≡ 0x05 ∷ 0x01 ∷ rsv ∷ 0x03 ∷ target_bytes site (0x16 ∷ []))
read_request-accepts_example =
    read_request-accepts (talk (request_bytes connect site (0x16 ∷ [])))
      (record { command = connect; target = site }) (talk (0x16 ∷ [])) site_bytes
      (read_request_lem connect site (0x16 ∷ []) (talk (request_bytes connect site (0x16 ∷ [])))
        site-IsTarget refl)

handle_socks5_inner_returns_example :
    (handle_socks5_inner local (some (alice ∷ [])) (talk [])).0 ≢ hung
handle_socks5_inner_returns_example =
    handle_socks5_inner_returns local (some (alice ∷ [])) (talk [])

-- A client that sends the first bytes of its tunnel with its request.
abbrev eager_client : Conn
eager_client = talk (0x05 ∷ 0x01 ∷ 0x00 ∷ request_bytes bind site (codes "hello"))

abbrev eager_end : Conn
eager_end = record (talk (codes "hello")) {
  output = 0x05 ∷ 0x00 ∷ 0x05 ∷ 0x07 ∷ 0x00 ∷ 0x01 ∷ 0x00 ∷ 0x00 ∷ 0x00 ∷ 0x00 ∷ 0x00 ∷ 0x00 ∷ [];
}

eager_served : handle_socks5_inner local none eager_client ≡ (done tt, eager_end)
unfolding handle_socks5_inner negotiate_method select_method read_exact write_all read_request
    read_target parse_command dispatch send_reply to_be_bytes from_be_bytes from_utf8 is_utf8
eager_served = refl

handle_socks5_inner_framed_example :
    Frames (handle_socks5_inner local none) eager_client tt eager_end
handle_socks5_inner_framed_example =
    handle_socks5_inner_framed local none eager_client eager_end eager_served
