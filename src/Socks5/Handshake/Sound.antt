-- ===== src/Socks5/Handshake/Sound.antt =====
-- `read_request` accepts only what RFC 1928 can write.
use peregrine_proxy.Base.{
  ℕ, ◌≡◌, refl, sym, ap, ◌∙◌, Bool, true, false, not, ◌==◌, ==_iff, [], ◌∷◌, ◌++◌, get_or, All,
}
use peregrine_proxy.Base.Text.{Bytes}
use peregrine_proxy.Error.{socks5, invalid_request_version}
use peregrine_proxy.Stream.{Conn, done, fail_if}
use peregrine_proxy.Stream.Laws.{bind-eq-done, fail_if-eq-done}
use peregrine_proxy.Socks5.Handshake.{
  SocksRequest, read_timed, read_target, read_request, parse_command,
}
use peregrine_proxy.Socks5.Handshake.Request.{command_code, atyp, target_bytes, IsTarget}
use peregrine_proxy.Socks5.Handshake.Targets.{
  IsByte, pure-eq-done, read_bytes, read_target-Wrote, parse_command-eq-done, four_bytes,
}

not-eq-false : (b : Bool) → not b ≡ false → b ≡ true
not-eq-false true h = refl
not-eq-false false h = absurd (cc)

header_wire :
    (header before middle : Bytes)
    → header ≡ get_or header 0 0 ∷ get_or header 1 0 ∷ get_or header 2 0 ∷ get_or header 3 0 ∷ []
    → before ≡ header ++ middle
    → (code : ℕ) → get_or header 0 0 ≡ 0x05
    → get_or header 1 0 ≡ code
    → (kind : ℕ) → get_or header 3 0 ≡ kind
    → before ≡ 0x05 ∷ code ∷ get_or header 2 0 ∷ kind ∷ middle
header_wire header before middle h e code v c kind k =
    e
    ∙ ap (λ x. x ++ middle) h
    ∙ ap (λ x. x ∷ get_or header 1 0 ∷ get_or header 2 0 ∷ get_or header 3 0 ∷ middle) v
    ∙ ap (λ x. 0x05 ∷ x ∷ get_or header 2 0 ∷ get_or header 3 0 ∷ middle) c
    ∙ ap (λ x. 0x05 ∷ code ∷ get_or header 2 0 ∷ x ∷ middle) k

-- A request that is accepted on a connection of bytes has a well-formed target, and was written as
-- RFC 1928 has it but for its reserved byte, which may be anything; exactly what follows it is left.
pub read_request-accepts :
    (s : Conn) (request : SocksRequest) (s' : Conn)
    → All IsByte s.input
    → read_request s ≡ (done request, s')
    → IsTarget request.target
      × (rsv : ℕ) × (s.input
          ≡ 0x05
            ∷ command_code request.command
            ∷ rsv
            ∷ atyp request.target
            ∷ target_bytes request.target s'.input)
unfolding read_request
read_request-accepts s request s' h e =
    let (header, s1, e1, h1) = bind-eq-done (read_timed 4) _ s e in
    let (i1, l1, _, left) = read_bytes 4 s h e1 in
    let (_, s2, e2, h2) =
      bind-eq-done (fail_if (not (get_or header 0 0 == 0x05)) (socks5 invalid_request_version)) _ s1
        h1 in
    let (v, same2) = fail_if-eq-done _ _ s1 e2 in
    let (command, s3, e3, h3) = bind-eq-done (parse_command (get_or header 1 0)) _ s2 h2 in
    let (c, same3) = parse_command-eq-done (get_or header 1 0) s2 e3 in
    let (target, s4, e4, h4) = bind-eq-done (read_target (get_or header 3 0)) _ s3 h3 in
    let here : s1 ≡ s3 = sym same2 ∙ same3 in
    let (fits, k, wire) = read_target-Wrote (get_or header 3 0) s3 (rw here at left) e4 in
    let (r, same5) =
      pure-eq-done (record { command = command; target = target }) request s4 s' h4 in
    rw (sym r) (
      fits,
      get_or header 2 0,
      header_wire header s.input s1.input (four_bytes header l1) i1 (command_code command)
            ((==_iff (get_or header 0 0) 0x05).0 (not-eq-false _ v)) c (atyp target) k
          ∙ ap (λ x. 0x05 ∷ command_code command ∷ get_or header 2 0 ∷ atyp target ∷ x)
              (ap (λ x. x.input) here ∙ wire ∙ ap (λ x. target_bytes target x.input) same5),
    )
