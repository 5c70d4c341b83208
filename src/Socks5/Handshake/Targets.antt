-- ===== src/Socks5/Handshake/Targets.antt =====
-- What the parts of a request that `read_request` accepts looked like on the wire.
use peregrine_proxy.Base.{
  ==_iff, ℕ, ◌≤◌, ◌<◌, ◌≡◌, refl, sym, ap, ◌∙◌, ◌==◌, [], ◌∷◌, ◌++◌, length, get_or, All, arith,
  Bool-cases, inl, inr,
}
use peregrine_proxy.Base.Text.{Bytes, from_utf8, from_utf8-eq-some}
use peregrine_proxy.Base.Word.{to_be_bytes, from_be_bytes}
use peregrine_proxy.Error.{ProxyError, socks5, invalid_domain_encoding, unknown_address_type}
use peregrine_proxy.Stream.{Conn, done, pure, raise, ok_or, ◌>>=◌}
use peregrine_proxy.Stream.Laws.{bind-eq-done, ok_or-eq-done, read_timed-eq-done}
use peregrine_proxy.Socks5.Handshake.{
  SocksCommand, TargetAddr, ipv4, domain, ipv6, read_timed, read_port, read_ipv4, read_domain,
  read_ipv6, read_target, parse_command,
}
use peregrine_proxy.Socks5.Handshake.Request.{command_code, atyp, target_bytes, IsTarget}

abbrev pub IsByte : ℕ → Type 0
IsByte b = b < 256

All-split : (xs ys : Bytes) → All IsByte (xs ++ ys) → All IsByte xs × All IsByte ys
All-split [] ys h = (tt, h)
All-split (x ∷ xs) ys h = let (a, b) = All-split xs ys h.1 in ((h.0, a), b)

pub pure-eq-done :
    {A : Type 0} (a b : A) (s s' : Conn) → pure a s ≡ (done b, s') → (a ≡ b) × (s ≡ s')
pure-eq-done a b s s' h = (cc, cc)

raise-eq-done : {A : Type 0} (e : ProxyError) (b : A) (s s' : Conn) → raise e s ≡ (done b, s') → ⊥
raise-eq-done e b s s' h = cc

-- A read of bytes takes bytes and leaves bytes.
pub read_bytes :
    (n : ℕ) (s : Conn) {bs : Bytes} {s' : Conn}
    → All IsByte s.input
    → read_timed n s ≡ (done bs, s')
    → (s.input ≡ bs ++ s'.input) × (length bs ≡ n) × All IsByte bs × All IsByte s'.input
read_bytes n s {bs} {s'} h e =
    let (i, l, _, _) = read_timed-eq-done n s e in
    let (a, b) = All-split bs s'.input (rw i at h) in (i, l, a, b)

word_bytes :
    (bs : Bytes)
    → length bs ≡ 2
    → All IsByte bs
    → (bs ≡ to_be_bytes (from_be_bytes (get_or bs 0 0) (get_or bs 1 0)))
      × (from_be_bytes (get_or bs 0 0) (get_or bs 1 0) < 65536)
unfolding to_be_bytes from_be_bytes
word_bytes [] l h = absurd (omega arith)
word_bytes (x ∷ []) l h = absurd (omega arith)
word_bytes (x ∷ y ∷ []) l h = (ground arith, omega arith)
word_bytes (x ∷ y ∷ z ∷ bs) l h = absurd (omega arith)

read_port-eq-done :
    (s : Conn) {port : ℕ} {s' : Conn}
    → All IsByte s.input
    → read_port s ≡ (done port, s')
    → (port < 65536) × (s.input ≡ to_be_bytes port ++ s'.input)
unfolding read_port
read_port-eq-done s {port} {s'} h e =
    let (bs, s1, e1, h1) = bind-eq-done (read_timed 2) _ s e in
    let (i, l, a, _) = read_bytes 2 s h e1 in
    let (w, small) = word_bytes bs l a in
    let (p, same) = pure-eq-done _ port s1 s' h1 in
    (
      rw p at small,
      i
          ∙ ap (λ x. x ++ s1.input) (w ∙ ap to_be_bytes p)
          ∙ ap (λ x. to_be_bytes port ++ x.input) same,
    )

-- The target was written with the address type `code`, and what the read left follows it.
abbrev pub Wrote : ℕ → TargetAddr → Bytes → Bytes → Type 0
Wrote code target before after =
    IsTarget target × (code ≡ atyp target) × (before ≡ target_bytes target after)

octets_port :
    (n : ℕ) (wrap : Bytes → ℕ → TargetAddr) (s : Conn) {target : TargetAddr} {s' : Conn}
    → All IsByte s.input
    → (read_timed n >>= λ addr. read_port >>= λ port. pure (wrap addr port)) s ≡ (done target, s')
    → (addr : Bytes) × (port : ℕ) × (wrap addr port ≡ target)
      × (length addr ≡ n)
      × (port < 65536)
      × (s.input ≡ addr ++ (to_be_bytes port ++ s'.input))
octets_port n wrap s {target} {s'} h e =
    let (addr, s1, e1, h1) = bind-eq-done (read_timed n) _ s e in
    let (i, l, _, left) = read_bytes n s h e1 in
    let (port, s2, e2, h2) = bind-eq-done read_port _ s1 h1 in
    let (small, j) = read_port-eq-done s1 left e2 in
    let (t, same) = pure-eq-done (wrap addr port) target s2 s' h2 in
    (
      addr,
      port,
      t,
      l,
      small,
      i ∙ ap (λ x. addr ++ x) j ∙ ap (λ x. addr ++ (to_be_bytes port ++ x.input)) same,
    )

read_ipv4-Wrote :
    (s : Conn) {target : TargetAddr} {s' : Conn}
    → All IsByte s.input
    → read_ipv4 s ≡ (done target, s')
    → Wrote 0x01 target s.input s'.input
unfolding read_ipv4
read_ipv4-Wrote s h e =
    let (addr, port, t, l, small, i) = octets_port 4 ipv4 s h e in rw (sym t) ((l, small), refl, i)

read_ipv6-Wrote :
    (s : Conn) {target : TargetAddr} {s' : Conn}
    → All IsByte s.input
    → read_ipv6 s ≡ (done target, s')
    → Wrote 0x04 target s.input s'.input
unfolding read_ipv6
read_ipv6-Wrote s h e =
    let (addr, port, t, l, small, i) = octets_port 16 ipv6 s h e in rw (sym t) ((l, small), refl, i)

domain_wire :
    (len name : Bytes) (port : ℕ) (i0 i1 i2 i3 : Bytes)
    → length len ≡ 1
    → All IsByte len
    → length name ≡ get_or len 0 0
    → i0 ≡ len ++ i1
    → i1 ≡ name ++ i2
    → i2 ≡ to_be_bytes port ++ i3
    → (length name ≤ 255) × (i0 ≡ length name ∷ name ++ (to_be_bytes port ++ i3))
domain_wire [] name port i0 i1 i2 i3 l h n e1 e2 e3 = absurd (omega arith)
domain_wire (x ∷ []) name port i0 i1 i2 i3 l h n e1 e2 e3 = (
  omega arith,
  e1
      ∙ ap (λ i. x ∷ i) (e2 ∙ ap (λ i. name ++ i) e3)
      ∙ ap (λ k. k ∷ name ++ (to_be_bytes port ++ i3)) (sym n),
)
domain_wire (x ∷ y ∷ len) name port i0 i1 i2 i3 l h n e1 e2 e3 = absurd (omega arith)

read_domain-Wrote :
    (s : Conn) {target : TargetAddr} {s' : Conn}
    → All IsByte s.input
    → read_domain s ≡ (done target, s')
    → Wrote 0x03 target s.input s'.input
unfolding read_domain
read_domain-Wrote s {target} {s'} h e =
    let (len, s1, e1, h1) = bind-eq-done (read_timed 1) _ s e in
    let (i1, l1, b1, left1) = read_bytes 1 s h e1 in
    let (name, s2, e2, h2) = bind-eq-done (read_timed (get_or len 0 0)) _ s1 h1 in
    let (i2, l2, _, left2) = read_bytes (get_or len 0 0) s1 left1 e2 in
    let (port, s3, e3, h3) = bind-eq-done read_port _ s2 h2 in
    let (small, i3) = read_port-eq-done s2 left2 e3 in
    let (str, s4, e4, h4) =
      bind-eq-done (ok_or (from_utf8 name) (socks5 invalid_domain_encoding)) _ s3 h3 in
    let (u, same4) = ok_or-eq-done (from_utf8 name) (socks5 invalid_domain_encoding) s3 e4 in
    let (t, same) = pure-eq-done (domain str port) target s4 s' h4 in
    let (n, valid) = from_utf8-eq-some name u in
    let (short, wire) =
      domain_wire len name port s.input s1.input s2.input s3.input l1 b1 l2 i1 i2 i3 in
    rw (sym t, n)
      (
        (short, valid, small),
        refl,
        wire ∙ ap (λ x. length name ∷ name ++ (to_be_bytes port ++ x.input)) (sym same4 ∙ same),
      )

pub read_target-Wrote :
    (code : ℕ) (s : Conn) {target : TargetAddr} {s' : Conn}
    → All IsByte s.input
    → read_target code s ≡ (done target, s')
    → Wrote code target s.input s'.input
unfolding read_target
read_target-Wrote code s {target} {s'} h e = elim (Bool-cases (code == 0x01)) [
  | inl four ↦ rw ((==_iff code 0x01).0 four) (read_ipv4-Wrote s h (rw four at e))
  | inr not_four ↦ elim (Bool-cases (code == 0x03)) [
    | inl name ↦ rw ((==_iff code 0x03).0 name) (read_domain-Wrote s h (rw (not_four, name) at e))
    | inr not_name ↦ elim (Bool-cases (code == 0x04)) [
      | inl six ↦
          rw ((==_iff code 0x04).0 six) (read_ipv6-Wrote s h (rw (not_four, not_name, six) at e))
      | inr other ↦ absurd (
          raise-eq-done (socks5 (unknown_address_type code)) target s s'
            (rw (not_four, not_name, other) at e))
    ]
  ]
]

pub parse_command-eq-done :
    (code : ℕ) (s : Conn) {command : SocksCommand} {s' : Conn}
    → parse_command code s ≡ (done command, s')
    → (code ≡ command_code command) × (s ≡ s')
unfolding parse_command
parse_command-eq-done code s {command} {s'} e = ground arith

pub four_bytes :
    (bs : Bytes)
    → length bs ≡ 4
    → bs ≡ get_or bs 0 0 ∷ get_or bs 1 0 ∷ get_or bs 2 0 ∷ get_or bs 3 0 ∷ []
four_bytes [] h = absurd (omega arith)
four_bytes (a ∷ []) h = absurd (omega arith)
four_bytes (a ∷ b ∷ []) h = absurd (omega arith)
four_bytes (a ∷ b ∷ c ∷ []) h = absurd (omega arith)
four_bytes (a ∷ b ∷ c ∷ d ∷ []) h = refl
four_bytes (a ∷ b ∷ c ∷ d ∷ e ∷ bs) h = absurd (omega arith)
