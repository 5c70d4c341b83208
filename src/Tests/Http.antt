-- ===== src/Tests/Http.antt =====
-- One HTTP request through the handler.
use peregrine_proxy.Base.{◌≡◌, ◌⊎◌, refl, ◌↔◌, true, none, some, List, [], ◌∷◌, ◌++◌, arith}
use peregrine_proxy.Base.Text.{Bytes, codes, is_utf8_ascii, lower}
use peregrine_proxy.Upstream.HttpClient.{basic_value}
use peregrine_proxy.Acl.Auth.Laws.{IsListed}
use peregrine_proxy.Http.{
  Header, Request, forwarded_headers, get_header, to_lowercase, check_proxy_auth,
}
use peregrine_proxy.Upstream.{address_text}
use peregrine_proxy.Http.Forwarded.{Copies, HasHost, forwarded_headers_lem}
use peregrine_proxy.Http.Credentials.{check_proxy_auth_iff}
use peregrine_proxy.Tests.Sample.{tally, alice}

abbrev headers : List Header
headers =
    (record { name = codes "accept"; value = codes "*/*" })
    ∷ (record { name = codes "te"; value = codes "trailers" })
    ∷ []

forwarded_headers_lem_example :
    (cs : List Header) × Copies headers cs
    × ((HasHost headers × (forwarded_headers (codes "example.org") 80 headers ≡ cs))
        ⊎ ((¬ HasHost headers)
            × (forwarded_headers (codes "example.org") 80 headers
                ≡ cs
                  ++ (record { name = codes "host"; value = address_text (codes "example.org") 80 })
                    ∷ [])))
forwarded_headers_lem_example = forwarded_headers_lem (codes "example.org") 80 headers

accept_sent : get_header (codes "accept") headers ≡ some (codes "*/*")
unfolding get_header to_lowercase lower
accept_sent = refl

abbrev request_to : Bytes → Request
request_to authority = record {
  method = codes "CONNECT";
  uri = record { host = none; port_u16 = none; authority = some authority; path_and_query = none };
  version = codes "HTTP/1.1";
  headers = (record { name = codes "proxy-authorization"; value = basic_value tally alice }) ∷ [];
  body = [];
}

header_sent :
    get_header (codes "proxy-authorization") (request_to (codes "example.org")).headers
    ≡ some (basic_value tally alice)
unfolding get_header to_lowercase lower
header_sent = refl

check_proxy_auth_iff_example :
    (check_proxy_auth tally (request_to (codes "example.org")) (alice ∷ []) ≡ true)
    ↔ IsListed (codes "alice") (codes "s3:cret") (alice ∷ [])
check_proxy_auth_iff_example =
    check_proxy_auth_iff tally (request_to (codes "example.org")) alice (alice ∷ []) header_sent
      refl (is_utf8_ascii (codes "alice") (omega arith))
      (is_utf8_ascii (codes "s3:cret") (omega arith))
