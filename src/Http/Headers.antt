-- ===== src/Http/Headers.antt =====
-- Which headers and which target a request is forwarded with.
use mathlib.Core.List.{append_assoc}
use peregrine_proxy.Base.{
  ℕ, ◌+◌, ◌<◌, ◌≡◌, refl, sym, ap, ◌∙◌, Bool, true, false, none, some, List, [], ◌∷◌, ◌++◌, any,
  list_eq, list_eq_iff, length, length-append, drop, take-append, drop-append, if◌then◌else◌, arith,
  contains, All,
}
use peregrine_proxy.Base.Text.{Bytes, codes, lower}
use peregrine_proxy.Base.Decimal.{decimal, parse_u16-decimal, decimal-All, IsDigit}
use peregrine_proxy.Base.Search.{rfind-last, rfind-none}
use peregrine_proxy.Upstream.{address_text}
use peregrine_proxy.Http.{
  Header, Request, hop_by_hop, to_lowercase, is_hop_by_hop, copy_headers, named, contains_key,
  forwarded_headers, parse_host_port, split_at, with_port, get_header, handle_connect, tunnel,
  plain, or_default,
}

abbrev host_added : Bool → Bytes → ℕ → List Header
host_added present host port =
    if present then [] else (record { name = codes "host"; value = address_text host port }) ∷ []

same_fate :
    (name : Bytes) (h : Header)
    → named name h ≡ true
    → is_hop_by_hop h.name ≡ any (list_eq name) hop_by_hop
unfolding is_hop_by_hop
same_fate name h e =
    ap (λ n. any (list_eq n) hop_by_hop) ((list_eq_iff (to_lowercase h.name) name).0 e)

get_header-copy_headers :
    (name : Bytes) (hs : List Header)
    → any (list_eq name) hop_by_hop ≡ false
    → get_header name (copy_headers hs) ≡ get_header name hs
unfolding get_header copy_headers
get_header-copy_headers name [] e = refl
get_header-copy_headers name (h ∷ hs) e =
    ground (arith, same_fate name h, get_header-copy_headers name hs e)

get_header-append :
    (name value : Bytes) (hs added : List Header)
    → get_header name hs ≡ some value
    → get_header name (hs ++ added) ≡ some value
unfolding get_header
get_header-append name value [] added e = absurd (cc)
get_header-append name value (h ∷ hs) added e =
    ground (arith, get_header-append name value hs added)

get_header_missing :
    (name : Bytes) (hs added : List Header)
    → get_header name hs ≡ none
    → get_header name (hs ++ added) ≡ get_header name added
unfolding get_header
get_header_missing name [] added e = refl
get_header_missing name (h ∷ hs) added e = ground (arith, get_header_missing name hs added)

contains_key_missing :
    (name : Bytes) (hs : List Header) → contains_key name hs ≡ false → get_header name hs ≡ none
unfolding get_header contains_key
contains_key_missing name [] h = refl
contains_key_missing name (x ∷ hs) h = ground (arith, contains_key_missing name hs)

contains_key-get_header :
    (name value : Bytes) (hs : List Header)
    → get_header name hs ≡ some value
    → contains_key name hs ≡ true
unfolding get_header contains_key
contains_key-get_header name value [] h = absurd (cc)
contains_key-get_header name value (x ∷ hs) h =
    ground (arith, contains_key-get_header name value hs)

contains_key_absent :
    (name : Bytes) (hs : List Header) → get_header name hs ≡ none → contains_key name hs ≡ false
unfolding get_header contains_key
contains_key_absent name [] h = refl
contains_key_absent name (x ∷ hs) h = ground (arith, contains_key_absent name hs)

added_host :
    (b : Bool) (host : Bytes) (port : ℕ)
    → b ≡ false
    → get_header (codes "host") (host_added b host port) ≡ some (address_text host port)
unfolding get_header to_lowercase lower
added_host true host port e = absurd (cc)
added_host false host port e = refl

-- A header of any other name is forwarded with its value.
pub get_header-forwarded_headers :
    (host : Bytes) (port : ℕ) (hs : List Header) (name value : Bytes)
    → any (list_eq name) hop_by_hop ≡ false
    → get_header name hs ≡ some value
    → get_header name (forwarded_headers host port hs) ≡ some value
unfolding forwarded_headers
get_header-forwarded_headers host port hs name value e g =
    get_header-append name value (copy_headers hs)
      (host_added (contains_key (codes "host") hs) host port)
      (get_header-copy_headers name hs e ∙ g)

-- A request without a Host header is given the target's.
pub forwarded_headers-host :
    (host : Bytes) (port : ℕ) (hs : List Header)
    → get_header (codes "host") hs ≡ none
    → get_header (codes "host") (forwarded_headers host port hs) ≡ some (address_text host port)
unfolding forwarded_headers
forwarded_headers-host host port hs e =
    let present = contains_key (codes "host") hs in
    get_header_missing (codes "host") (copy_headers hs) (host_added present host port)
      (get_header-copy_headers (codes "host") hs (host_kept) ∙ e)
    ∙ added_host present host port (contains_key_absent (codes "host") hs e)
  where
    host_kept : any (list_eq (codes "host")) hop_by_hop ≡ false
    host_kept = refl

no_colon_decimal : (bs : Bytes) → All IsDigit bs → contains bs b':' ≡ false
no_colon_decimal [] h = refl
no_colon_decimal (b ∷ bs) h = ground (arith, no_colon_decimal bs h.1)

-- The text of a host and a port is split at its last colon.
pub parse_host_port-address_text :
    (host : Bytes) (port : ℕ)
    → port < 65536
    → parse_host_port (address_text host port) ≡ some (host, port)
unfolding parse_host_port address_text split_at with_port
parse_host_port-address_text host port h =
    rw
      (
        rfind-last b':' host (decimal port) (no_colon_decimal (decimal port) (decimal-All port)),
        take-append (length host) host (b':' ∷ decimal port) refl,
        behind,
      )
      (rw (parse_u16-decimal port h))
  where
    behind : drop (length host + 1) (host ++ b':' ∷ decimal port) ≡ decimal port
    behind = rw (sym (append_assoc host (b':' ∷ []) (decimal port))) (
        drop-append (length host + 1) (host ++ b':' ∷ []) (decimal port)
          (omega (arith, length-append host (b':' ∷ []))))

-- A CONNECT request whose authority is a host and a port below 65536 is answered with status 200,
-- and opens a tunnel to them.
pub handle_connect-address :
    (req : Request) (host : Bytes) (port : ℕ)
    → port < 65536
    → req.uri.authority ≡ some (address_text host port)
    → handle_connect req ≡ tunnel (address_text host port) (plain 200 [])
unfolding handle_connect or_default
handle_connect-address req host port h e =
    rw (e, handle_connect) (rw (parse_host_port-address_text host port h))

-- If the authority has no colon, the tunnel goes to port 443 of it.
pub handle_connect-default :
    (req : Request) (host : Bytes)
    → contains host b':' ≡ false
    → req.uri.authority ≡ some host
    → handle_connect req ≡ tunnel (address_text host 443) (plain 200 [])
unfolding handle_connect parse_host_port split_at or_default
handle_connect-default req host h e = rw (e, handle_connect) (rw (rfind-none b':' host h))
