-- ===== src/Http/Credentials.antt =====
-- The check of the Proxy-Authorization header.
use peregrine_proxy.Base.{
  ◌≡◌, refl, ◌↔◌, true, false, none, some, List, [], ◌∷◌, any, arith, contains, All, not,
}
use peregrine_proxy.Base.Text.{Bytes, codes, is_utf8}
use peregrine_proxy.Config.{UserCredential}
use peregrine_proxy.Acl.Auth.{Base64}
use peregrine_proxy.Acl.Auth.Laws.{IsListed, verify_credentials_iff, parse_basic_auth-encode}
use peregrine_proxy.Base.Search.{IsSolid}
use peregrine_proxy.Upstream.HttpClient.{basic_value, user_pass}
use peregrine_proxy.Http.{Request, get_header, is_visible, to_str, check_proxy_auth, or_default}

visible : (bs : Bytes) → All IsSolid bs → any (λ b. not (is_visible b)) bs ≡ false
visible [] h = refl
visible (b ∷ bs) h = ground (arith, visible bs h.1)

to_str_basic :
    (base64 : Base64) (user : UserCredential)
    → to_str (basic_value base64 user) ≡ some (basic_value base64 user)
unfolding to_str basic_value
to_str_basic base64 user =
    rw (visible (base64.encode (user_pass user)) (base64.encode_solid (user_pass user)))

-- The header that the proxy's own HTTP client sends for a user, whose name and password are UTF-8
-- and whose name has no colon, is accepted exactly when the user is a configured one.
pub check_proxy_auth_iff :
    (base64 : Base64) (req : Request) (user : UserCredential) (users : List UserCredential)
    → get_header (codes "proxy-authorization") req.headers ≡ some (basic_value base64 user)
    → contains user.username b':' ≡ false
    → is_utf8 user.username ≡ true
    → is_utf8 user.password ≡ true
    → (check_proxy_auth base64 req users ≡ true) ↔ IsListed user.username user.password users
unfolding check_proxy_auth basic_value or_default
check_proxy_auth_iff base64 req user users h colon un up =
    rw (h, check_proxy_auth)
      (rw (to_str_basic base64 user) (
        rw (parse_basic_auth-encode base64 user.username user.password colon un up)
          (verify_credentials_iff user.username user.password users)))

-- A request without the header, or with a header that is not of the Basic scheme, is refused.
pub check_proxy_auth_refused :
    (base64 : Base64) (req : Request) (users : List UserCredential)
    → get_header (codes "proxy-authorization") req.headers ≡ none
    → check_proxy_auth base64 req users ≡ false
unfolding check_proxy_auth or_default
check_proxy_auth_refused base64 req users h = ground arith
