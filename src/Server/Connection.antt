-- ===== src/Server/Connection.antt =====
-- Which handler a connection reaches, and as whom.
use peregrine_proxy.Base.{
  ℕ, ◌<◌, ◌≡◌, refl, ap, ◌∙◌, true, none, List, [], ◌∷◌, ◌++◌, length, take, replicate, contains,
  arith, inl, inr, All,
}
use peregrine_proxy.Base.Text.{Bytes}
use peregrine_proxy.Stream.{Conn, done, read}
use peregrine_proxy.Stream.Laws.{read-first}
use peregrine_proxy.Network.{Network}
use peregrine_proxy.Detect.{http, detect_protocol, methods}
use peregrine_proxy.Detect.Methods.{Any, detect_protocol-socks5_iff}
use peregrine_proxy.Detect.Peek.{peek_buffer, peek_buffer_http, peek_buffer_unknown}
use peregrine_proxy.Socks5.{handle_socks5}
use peregrine_proxy.Socks5.Handshake.{SocksCommand, TargetAddr}
use peregrine_proxy.Socks5.Handshake.Request.{IsTarget, request_bytes}
use peregrine_proxy.Socks5.Session.{answer, handle_socks5_open}
use peregrine_proxy.Server.{
  ProxyStream, plain, choose, handled, peek, protocol_detected, handle_socks5_with_stream, follow,
  handle_connection,
}

peek_buffer-cons : (b : ℕ) (bs : Bytes) → (more : Bytes) × (peek_buffer (b ∷ bs) ≡ b ∷ more)
unfolding peek_buffer
peek_buffer-cons b bs = (take 7 (bs ++ replicate 8 0), refl)

no_empty : (ms : List Bytes) → All (λ m. 0 < length m) ms → Any (λ m. m ≡ []) ms → ⊥
no_empty [] h k = absurd k
no_empty (m ∷ ms) h (inl e) = omega (arith, h.0, ap length e)
no_empty (m ∷ ms) h (inr k) = no_empty ms h.1 k

-- A plain connection whose first byte is 5 goes to the SOCKS5 handler without users, and the
-- handler finds every byte still there; in whatever segments the bytes arrive.
pub handle_connection_socks5 :
    (net : Network) (handle_http : ProxyStream → Conn) (bs : Bytes) (s : Conn)
    → s.input ≡ 0x05 ∷ bs
    → handle_connection net handle_http (plain s) ≡ handle_socks5 net none s
unfolding handle_connection protocol_detected handle_socks5_with_stream peek
handle_connection_socks5 net handle_http bs s e =
    let (more, found) = read-first 8 0x05 bs s (omega arith) e in
    let (rest, padded) = peek_buffer-cons 0x05 more in
    let known = (detect_protocol-socks5_iff (peek_buffer (0x05 ∷ more))).1 (rest, padded) in
    ap (λ o. follow net handle_http (plain s) (choose o)) found
    ∙ ap (λ d. follow net handle_http (plain s) (handled d)) known

-- Any client of a plain listener is served without a password, since the server passes no users:
-- a greeting that offers no password and a request are answered as the request asks.
pub handle_connection_open :
    (net : Network) (handle_http : ProxyStream → Conn) (command : SocksCommand)
    (target : TargetAddr) (methods rest : Bytes) (s : Conn)
    → s.input ≡ 0x05 ∷ length methods ∷ (methods ++ request_bytes command target rest)
    → s.room ≡ none
    → contains methods 0x00 ≡ true
    → IsTarget target
    → handle_connection net handle_http (plain s) ≡ record s {
      input = rest;
      output = s.output ++ 0x05 ∷ 0x00 ∷ (answer net command target).0;
      events = s.events ++ (answer net command target).1;
    }
handle_connection_open net handle_http command target methods rest s e r offered fits =
    handle_connection_socks5 net handle_http
      (length methods ∷ (methods ++ request_bytes command target rest)) s e
    ∙ handle_socks5_open net command target methods rest s e r offered fits

module _ (net : Network) (handle_http : ProxyStream → Conn) (s : Conn) where
  handled_http :
      (bs : Bytes)
      → detect_protocol (peek_buffer bs) ≡ http
      → 0 < length bs
      → follow net handle_http (plain s) (choose (done bs)) ≡ handle_http (plain s)
  handled_http [] d h = absurd (omega arith)
  handled_http (b ∷ bs) d h = ap (λ p. follow net handle_http (plain s) (handled p)) d

  -- A plain connection whose first segment holds a whole method with its blank goes to the HTTP
  -- handler with every byte still there.
  pub handle_connection_http :
      (method more : Bytes)
      → Any (λ m. m ≡ method) methods
      → (read 8 s).0 ≡ done (method ++ more)
      → handle_connection net handle_http (plain s) ≡ handle_http (plain s)
  unfolding handle_connection protocol_detected peek
  handle_connection_http [] more h found = absurd (no_empty methods (omega arith) h)
  handle_connection_http (x ∷ method) more h found =
      ap (λ o. follow net handle_http (plain s) (choose o)) found
      ∙ handled_http (x ∷ (method ++ more)) (peek_buffer_http (x ∷ method) more h) (omega arith)

  -- A plain connection whose first segment ends inside a method is dropped as it is.
  pub handle_connection_split :
      (bs rest : Bytes) (x y : ℕ)
      → Any (λ m. m ≡ x ∷ (bs ++ y ∷ rest)) methods
      → (read 8 s).0 ≡ done (x ∷ bs)
      → handle_connection net handle_http (plain s) ≡ s
  unfolding handle_connection protocol_detected peek
  handle_connection_split bs rest x y h found =
      ap (λ o. follow net handle_http (plain s) (choose o)) found
      ∙ ap (λ p. follow net handle_http (plain s) (handled p)) (peek_buffer_unknown bs rest x y h).0
