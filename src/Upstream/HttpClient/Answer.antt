-- ===== src/Upstream/HttpClient/Answer.antt =====
-- When the upstream HTTP proxy counts as connected.
use peregrine_proxy.Base.{
  refl, ◌∙◌, true, starts_with, ||_iff, inl, inr, [], ℕ, ◌≤◌, ◌<◌, ◌≡◌, Option, none, List, ◌∷◌,
  ◌++◌, length, arith, if◌then◌else◌,
}
use peregrine_proxy.Base.Text.{Bytes, codes}
use peregrine_proxy.Config.{UserCredential}
use peregrine_proxy.Error.{upstream, http_connect_failed}
use peregrine_proxy.Stream.{Conn, done, fail}
use peregrine_proxy.Stream.Laws.{write_all_open, read-append}
use peregrine_proxy.Acl.Auth.{Base64}
use peregrine_proxy.Upstream.{address}
use peregrine_proxy.Upstream.HttpClient.{
  connect_text, is_success, first_line, perform_http_handshake,
}

-- The first segment of a proxy that takes the request, of 1 to 4096 bytes, decides: the CONNECT request has been sent, and the handshake succeeds
-- if that segment begins with a status line of code 200 and fails if not. What comes after the
-- segment is left for the tunnel.
pub perform_http_handshake_lem :
    (base64 : Base64) (auth : Option UserCredential) (host response rest : Bytes) (port : ℕ)
    (later : List ℕ) (s : Conn)
    → s.input ≡ response ++ rest
    → s.segments ≡ length response ∷ later
    → 0 < length response
    → length response ≤ 4096
    → s.room ≡ none
    → perform_http_handshake base64 auth (address host port) s ≡ (
      (if is_success response
          then done tt
          else fail (upstream (http_connect_failed (first_line response)))),
      record s {
        input = rest;
        segments = later;
        output = s.output ++ connect_text base64 auth host port;
      },
    )
unfolding perform_http_handshake
perform_http_handshake_lem base64 auth host response rest port later s e k pos fits r = ground (
  arith,
  write_all_open (connect_text base64 auth host port) s r,
  read-append 4096 response rest later
      (record s { output = s.output ++ connect_text base64 auth host port }) e k pos fits,
)

starts_with-more :
    (p text more : Bytes) → starts_with p text ≡ true → starts_with p (text ++ more) ≡ true
starts_with-more [] text more h = refl
starts_with-more (x ∷ p) [] more h = cc
starts_with-more (x ∷ p) (c ∷ text) more h = ground (arith, starts_with-more p text more)

is_success-append :
    (response early : Bytes) → is_success response ≡ true → is_success (response ++ early) ≡ true
is_success-append response early h =
    let new = codes "HTTP/1.1 200" in
    let old = codes "HTTP/1.0 200" in
    elim ((||_iff (starts_with new response) (starts_with old response)).0 h) [
      | inl e ↦
          (||_iff (starts_with new (response ++ early)) (starts_with old (response ++ early))).1
            (inl (starts_with-more new response early e))
      | inr e ↦
          (||_iff (starts_with new (response ++ early)) (starts_with old (response ++ early))).1
            (inr (starts_with-more old response early e))
    ]

success_nonempty : (response : Bytes) → is_success response ≡ true → 0 < length response
success_nonempty [] h = absurd (cc)
success_nonempty (b ∷ response) h = omega arith

-- What the target sends in the same segment as the answer of an HTTP proxy, at most 4096 bytes
-- together, is lost: the handshake succeeds, and the tunnel begins behind those bytes.
pub perform_http_handshake_swallows :
    (base64 : Base64) (auth : Option UserCredential) (host response early rest : Bytes) (port : ℕ)
    (later : List ℕ) (s : Conn)
    → is_success response ≡ true
    → s.input ≡ (response ++ early) ++ rest
    → s.segments ≡ length (response ++ early) ∷ later
    → length (response ++ early) ≤ 4096
    → s.room ≡ none
    → perform_http_handshake base64 auth (address host port) s ≡ (
      done tt,
      record s {
        input = rest;
        segments = later;
        output = s.output ++ connect_text base64 auth host port;
      },
    )
perform_http_handshake_swallows base64 auth host response early rest port later s h e k fits r =
    let hit = is_success-append response early h in
    perform_http_handshake_lem base64 auth host (response ++ early) rest port later s e k
      (success_nonempty (response ++ early) hit) fits r
    ∙ (rw hit refl)
