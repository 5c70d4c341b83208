-- ===== src/Http.antt =====
-- src/protocol/http_handler.rs: which headers and which target an HTTP request is forwarded with,
-- the answers of the handler, and the check of the proxy's credentials. hyper is not modelled: a
-- request is what hyper hands over, and `send_request` is a parameter.
pub mod Headers
pub mod Forwarded
pub mod Credentials
use peregrine_proxy.Base.{
  ℕ, ◌+◌, Bool, true, false, ◌||◌, not, ◌==◌, Option, none, some, List, [], ◌∷◌, ◌++◌, any, list_eq,
  take, drop, if◌then◌else◌, leb, ◌&&◌,
}
use peregrine_proxy.Base.Text.{Bytes, codes, lower}
use peregrine_proxy.Base.Decimal.{parse_u16}
use peregrine_proxy.Base.Search.{rfind}
use peregrine_proxy.Config.{UserCredential}
use peregrine_proxy.Error.{IoError}
use peregrine_proxy.Stream.{Conn, Event, Outcome, done, fail, hung, record_event}
use peregrine_proxy.Network.{Network, Connected, opened, refused}
use peregrine_proxy.Acl.Auth.{Base64, parse_basic_auth, verify_credentials}
use peregrine_proxy.Upstream.{address, address_text, direct_connect}

-- `HeaderName` and `HeaderValue`. A name is ASCII, and names are compared without their case.
pub record Header : Type 0 where
  pub name : Bytes
  pub value : Bytes

-- `Uri`, as its accessors give it.
pub record Uri : Type 0 where
  pub host : Option Bytes
  pub port_u16 : Option ℕ
  pub authority : Option Bytes
  pub path_and_query : Option Bytes

pub record Request : Type 0 where
  pub method : Bytes
  pub uri : Uri
  pub version : Bytes
  pub headers : List Header
  pub body : Bytes

pub record Response : Type 0 where
  pub status : ℕ
  pub headers : List Header
  pub body : Bytes

-- The names that `matches!` lists.
abbrev pub hop_by_hop : List Bytes
hop_by_hop =
    codes "proxy-authorization"
    ∷ codes "proxy-connection"
    ∷ codes "proxy-authenticate"
    ∷ codes "te"
    ∷ codes "trailer"
    ∷ codes "transfer-encoding"
    ∷ codes "upgrade"
    ∷ codes "keep-alive"
    ∷ codes "connection"
    ∷ []

-- `header.to_lowercase()`: header names are ASCII.
unfoldable pub to_lowercase : Bytes → Bytes
to_lowercase [] = []
to_lowercase (b ∷ bs) = lower b ∷ to_lowercase bs

unfoldable pub is_hop_by_hop : Bytes → Bool
is_hop_by_hop header = any (list_eq (to_lowercase header)) hop_by_hop

-- The loop that copies headers.
unfoldable pub copy_headers : List Header → List Header
copy_headers [] = []
copy_headers (h ∷ hs) =
    let rest = copy_headers hs in if is_hop_by_hop h.name then rest else h ∷ rest

-- `HeaderMap` looks a name up by its lower case.
abbrev pub named : Bytes → Header → Bool
named name h = list_eq (to_lowercase h.name) name

unfoldable pub contains_key : Bytes → List Header → Bool
contains_key name hs = any (named name) hs

unfoldable pub forwarded_headers : Bytes → ℕ → List Header → List Header
forwarded_headers host port hs =
    copy_headers hs
    ++ (if contains_key (codes "host") hs
        then []
        else (record { name = codes "host"; value = address_text host port }) ∷ [])

or_default : {A : Type 0} → Option A → A → A
or_default none a = a
or_default (some a) b = a

-- The request that goes to the target.
unfoldable pub forwarded_request : Bytes → ℕ → Request → Request
unfolding or_default
forwarded_request host port req = record {
  method = req.method;
  uri = record {
    host = none;
    port_u16 = none;
    authority = none;
    path_and_query = some (or_default req.uri.path_and_query (codes "/"));
  };
  version = req.version;
  headers = forwarded_headers host port req.headers;
  body = req.body;
}

-- What `proxy_request` and `handle_connect` do: answer the client, or let hyper close its
-- connection. `tunnel` is the address that the spawned task connects to.
pub data Handled : Type 0 where
  answer : Response → Handled
  close : Handled
  tunnel : Bytes → Response → Handled

abbrev pub plain : ℕ → Bytes → Response
plain status body = record { status = status; headers = []; body = body }

module _ (net : Network) (error_text : IoError → Bytes)
    (send_request : Conn → Request → Option Response) where
  send : Connected → Bytes → ℕ → Request → Handled
  send (refused e) host port req =
      answer (plain 502 (codes "Failed to connect to upstream: " ++ error_text e))
  send (opened stream) host port req =
      elim (send_request stream (forwarded_request host port req)) [
        | none ↦ close
        | some response ↦ answer response
      ]

  proxy_host : Option Bytes → Request → Handled
  unfolding send or_default
  proxy_host none req = answer (plain 400 (codes "Missing host in request URI"))
  proxy_host (some host) req =
      let port = or_default req.uri.port_u16 80 in
      send (net.tcp_connect (address_text host port)) host port req

  unfoldable pub proxy_request : Request → Handled
  unfolding proxy_host
  proxy_request req = proxy_host req.uri.host req

with_port : Bytes → Option ℕ → Option (Bytes × ℕ)
with_port host none = none
with_port host (some port) = some (host, port)

split_at : Bytes → Option ℕ → Option (Bytes × ℕ)
unfolding with_port
split_at authority none = none
split_at authority (some colon_pos) =
    with_port (take colon_pos authority) (parse_u16 (drop (colon_pos + 1) authority))

unfoldable pub parse_host_port : Bytes → Option (Bytes × ℕ)
unfolding split_at
parse_host_port authority = split_at authority (rfind b':' authority)

unfoldable pub handle_connect : Request → Handled
unfolding or_default
handle_connect req =
    let target = or_default req.uri.authority [] in
    let host_port = or_default (parse_host_port target) (target, 443) in
    tunnel (address_text host_port.0 host_port.1) (plain 200 [])

-- The service of `handle_http` and of `handle_http_generic`.
unfoldable pub serve :
    Network → (IoError → Bytes) → (Conn → Request → Option Response) → Request → Handled
serve net error_text send_request req =
    if list_eq req.method (codes "CONNECT")
    then handle_connect req
    else proxy_request net error_text send_request req

-- The task that `handle_connect` spawns, on the connection that the upgrade gives, if it does: a
-- failure is only logged.
abbrev pub after_connect : Bytes → Outcome Conn × Conn → Conn
after_connect addr (done target_stream, upgraded) = (record_event (Event.tunnel addr) upgraded).1
after_connect addr (fail e, upgraded) = upgraded
after_connect addr (hung, upgraded) = upgraded

unfoldable pub tunnel_task : Network → Option Conn → Bytes → ℕ → Option Conn
tunnel_task net none host port = none
tunnel_task net (some upgraded) host port =
    some (after_connect (address_text host port) (direct_connect net (address host port) upgraded))

-- hyper: `serve_connection` over a service, the client's `send_request`, and the text of an error.
pub record Hyper : Type 0 where
  pub serve_connection : (Request → Handled) → Conn → Conn
  pub send_request : Conn → Request → Option Response
  pub error_text : IoError → Bytes

module _ (hyper : Hyper) (net : Network) where
  unfoldable pub handle_http : Conn → Conn
  handle_http stream = hyper.serve_connection (serve net hyper.error_text hyper.send_request) stream

  unfoldable pub handle_http_generic : Conn → Conn
  handle_http_generic stream =
      hyper.serve_connection (serve net hyper.error_text hyper.send_request) stream

-- `HeaderMap::get`: the first value under the name.
unfoldable pub get_header : Bytes → List Header → Option Bytes
get_header name [] = none
get_header name (h ∷ hs) =
    let rest = get_header name hs in if named name h then some h.value else rest

-- `HeaderValue::to_str`: visible ASCII and the tab.
abbrev pub is_visible : ℕ → Bool
is_visible b = (leb 32 b && leb b 126) || (b == 9)

unfoldable pub to_str : Bytes → Option Bytes
to_str value = if any (λ b. not (is_visible b)) value then none else some value

infixl 5 ◌>>=◌
abbrev ◌>>=◌ {ℓ κ} : {A : Type ℓ} {B : Type κ} → Option A → (A → Option B) → Option B
none >>= f = none
some a >>= f = f a

unfoldable pub check_proxy_auth : Base64 → Request → List UserCredential → Bool
unfolding or_default
check_proxy_auth base64 req users =
    or_default
      (do
        auth_header ← get_header (codes "proxy-authorization") req.headers
        auth_str ← to_str auth_header
        credentials ← parse_basic_auth base64 auth_str
        some (verify_credentials credentials.0 credentials.1 users))
      false

abbrev pub make_407_response : Response
make_407_response = record {
  status = 407;
  headers =
      (record {
        name = codes "Proxy-Authenticate";
        value = codes "Basic realm=\"Peregrine Proxy\"";
      })
      ∷ [];
  body = codes "Proxy Authentication Required";
}
