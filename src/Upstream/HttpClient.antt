-- ===== src/Upstream/HttpClient.antt =====
-- src/upstream/http_proxy.rs: the CONNECT request to an upstream HTTP proxy and its answer. The
-- response is kept as bytes: the source decodes it lossily, which leaves ASCII as it is. The plain
-- and the TLS branch of the source are the same over their streams.
pub mod Answer
use peregrine_proxy.Base.{
  ◌≡◌, refl, ℕ, ◌+◌, Bool, true, false, ◌&&◌, ◌||◌, not, Option, none, some, List, [], ◌∷◌, ◌++◌,
  starts_with, ◌==◌, if◌then◌else◌,
}
use peregrine_proxy.Base.Text.{Bytes, codes}
use peregrine_proxy.Config.{UserCredential}
use peregrine_proxy.Error.{upstream, http_connect_failed}
use peregrine_proxy.Stream.{Conn, Outcome, M, pure, fail_if, ◌>>=◌, ◌>>◌, read, write_all}
use peregrine_proxy.Network.{Network}
use peregrine_proxy.Acl.Auth.{Base64}
use peregrine_proxy.Upstream.{Rustls, wrap_tls, ConnectTarget, address, address_text, extract_host}
use peregrine_proxy.Upstream.Socks5Client.{after, and_then, open_proxy}

abbrev pub crlf : Bytes
crlf = 13 ∷ 10 ∷ []

-- `format!("{}:{}", auth.username, auth.password)`.
abbrev pub user_pass : UserCredential → Bytes
user_pass auth = auth.username ++ b':' ∷ auth.password

abbrev pub is_success : Bytes → Bool
is_success response =
    starts_with (codes "HTTP/1.1 200") response || starts_with (codes "HTTP/1.0 200") response

cons_line : ℕ → Option Bytes → Option Bytes
cons_line b none = none
cons_line b (some line) = some (b ∷ line)

-- What stands before the first line feed.
line_before : Bytes → Option Bytes
unfolding cons_line
line_before [] = none
line_before (b ∷ bs) = let rest = cons_line b (line_before bs) in if b == 10 then some [] else rest

strip_cr : Bytes → Bytes
strip_cr [] = []
strip_cr (b ∷ []) = if b == 13 then [] else b ∷ []
strip_cr (b ∷ c ∷ bs) = b ∷ strip_cr (c ∷ bs)

line_of : Bytes → Option Bytes → Bytes
unfolding strip_cr
line_of response none = response
line_of response (some line) = strip_cr line

-- `lines().next()`: a carriage return belongs to the end of a line only before a line feed.
unfoldable pub first_line : Bytes → Bytes
unfolding line_before line_of
first_line [] = codes "empty"
first_line (b ∷ bs) = line_of (b ∷ bs) (line_before (b ∷ bs))

first_line_status : first_line (codes "HTTP/1.1 403" ++ 13 ∷ 10 ∷ codes "x") ≡ codes "HTTP/1.1 403"
unfolding first_line
first_line_status = refl

pub record HttpProxyConnector : Type 0 where
  pub proxy_addr : Bytes
  pub auth : Option UserCredential
  pub use_tls : Bool

module _ (base64 : Base64) where
  -- The value of the header that carries the credentials.
  unfoldable pub basic_value : UserCredential → Bytes
  basic_value auth = codes "Basic " ++ base64.encode (user_pass auth)

  abbrev pub auth_line : Option UserCredential → Bytes
  auth_line none = []
  auth_line (some auth) = codes "Proxy-Authorization: " ++ (basic_value auth ++ crlf)

  unfoldable pub connect_text : Option UserCredential → Bytes → ℕ → Bytes
  connect_text auth host port =
      codes "CONNECT "
      ++ (address_text host port
          ++ (codes " HTTP/1.1"
              ++ (crlf
                  ++ (codes "Host: "
                      ++ (address_text host port ++ (crlf ++ (auth_line auth ++ crlf)))))))

  unfoldable pub perform_http_handshake : Option UserCredential → ConnectTarget → M (Unit {0})
  unfolding first_line
  perform_http_handshake auth (address host port) = do
    write_all (connect_text auth host port)
    response ← read 4096
    fail_if (not (is_success response)) (upstream (http_connect_failed (first_line response)))

  -- `connect` of the connector, over `wrap_tls`.
  unfoldable pub http_connect : Network → Rustls → HttpProxyConnector → ConnectTarget → Outcome Conn
  http_connect net rustls c target =
      and_then (open_proxy c.proxy_addr (net.tcp_connect c.proxy_addr)) λ stream.
        if c.use_tls
        then and_then (wrap_tls rustls stream (extract_host c.proxy_addr))
            (λ tls. after (perform_http_handshake c.auth target tls))
        else after (perform_http_handshake c.auth target stream)
