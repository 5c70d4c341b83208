-- ===== src/Udp/Accepted.antt =====
-- What `parse_socks5_udp_packet` accepts: only packets that `build_socks5_udp_response` writes.
use mathlib.Core.List.{append_assoc}
use peregrine_proxy.Base.{
  ℕ, zero, suc, ◌+◌, ◌≤◌, ◌<◌, ◌≡◌, refl, ap, [], ◌∷◌, ◌++◌, length, take, drop, get_or, arith, All,
  some, none, Option, ◌⊎◌, inl, inr, ◌==◌, Bool-cases,
}
use peregrine_proxy.Base.Text.{Bytes, from_utf8, from_utf8-eq-some}
use peregrine_proxy.Base.Word.{to_u8_small, to_be_bytes, from_be_bytes}
use peregrine_proxy.Error.{ok}
use peregrine_proxy.Socks5.Handshake.{TargetAddr, ipv4, domain, ipv6}
use peregrine_proxy.Socks5.Handshake.Request.{IsTarget}
use peregrine_proxy.Udp.Packet.{get_or-append}
use peregrine_proxy.Udp.{
  port_at, named, parse_ipv4, parse_domain, parse_ipv6, parse_target, parse_socks5_udp_packet,
  source_bytes, build_socks5_udp_response,
}

abbrev pub AreBytes : Bytes → Type 0
AreBytes = All (λ b. b < 256)

rejoin_port : (x y : ℕ) → x < 256 → y < 256 → to_be_bytes (from_be_bytes x y) ≡ x ∷ y ∷ []
unfolding to_be_bytes from_be_bytes
rejoin_port x y hx hy = ground arith

-- A text of n bytes, a port and a rest, put together again.
rejoin :
    (n : ℕ) (xs : Bytes)
    → AreBytes xs
    → n + 2 ≤ length xs
    → take n xs ++ (to_be_bytes (port_at xs n) ++ drop (n + 2) xs) ≡ xs
rejoin zero [] bytes h = absurd (omega arith)
rejoin zero (x ∷ []) bytes h = absurd (omega arith)
rejoin zero (x ∷ y ∷ xs) bytes h = rw (rejoin_port x y bytes.0 bytes.1.0)
rejoin (suc n) [] bytes h = absurd (omega arith)
rejoin (suc n) (x ∷ xs) bytes h =
    let one : suc n + 1 ≡ suc (n + 1) = omega arith in
    let two : suc n + 2 ≡ suc (n + 2) = omega arith in
    rw (one, two) (ap (◌∷◌ x) (rejoin n xs bytes.1 (omega arith)))

take-length : (n : ℕ) (xs : Bytes) → n ≤ length xs → length (take n xs) ≡ n
take-length zero xs h = refl
take-length (suc n) [] h = absurd (omega arith)
take-length (suc n) (x ∷ xs) h = ap suc (take-length n xs (omega arith))

get_or-lt : (xs : Bytes) (n : ℕ) → AreBytes xs → get_or xs n 0 < 256
get_or-lt [] n bytes = omega arith
get_or-lt (x ∷ xs) zero bytes = bytes.0
get_or-lt (x ∷ xs) (suc n) bytes = get_or-lt xs n bytes.1

port_at-lt : (xs : Bytes) (n : ℕ) → AreBytes xs → port_at xs n < 65536
unfolding from_be_bytes
port_at-lt xs n bytes = omega (arith, get_or-lt xs n bytes, get_or-lt xs (n + 1) bytes)

-- What it means that a packet has been taken apart rightly.
abbrev pub Rebuilds : Bytes → TargetAddr → Bytes → Type 0
Rebuilds octets target payload =
    IsTarget target × (build_socks5_udp_response target payload ≡ octets)

ipv4-eq-ok :
    (rest : Bytes) {target : TargetAddr} {payload : Bytes}
    → parse_ipv4 (0 ∷ 0 ∷ 0 ∷ 1 ∷ rest) ≡ ok (target, payload)
    → (4 + 2 ≤ length rest)
      × (target ≡ ipv4 (take 4 rest) (port_at rest 4))
      × (payload ≡ drop (4 + 2) rest)
unfolding parse_ipv4
ipv4-eq-ok rest h = (ground arith, ground arith, ground arith)

ipv4_Rebuilds :
    (rest : Bytes) {target : TargetAddr} {payload : Bytes}
    → AreBytes rest
    → parse_ipv4 (0 ∷ 0 ∷ 0 ∷ 1 ∷ rest) ≡ ok (target, payload)
    → Rebuilds (0 ∷ 0 ∷ 0 ∷ 1 ∷ rest) target payload
unfolding build_socks5_udp_response source_bytes
ipv4_Rebuilds rest {target} {payload} bytes h =
    let (long, t, p) = ipv4-eq-ok rest h in
    rw (t, p)
      (
        (take-length 4 rest (omega arith), port_at-lt rest 4 bytes),
        rw (append_assoc (take 4 rest) (to_be_bytes (port_at rest 4)) (drop (4 + 2) rest))
            (ap (λ r. 0 ∷ 0 ∷ 0 ∷ 1 ∷ r) (rejoin 4 rest bytes long)),
      )

ipv6-eq-ok :
    (rest : Bytes) {target : TargetAddr} {payload : Bytes}
    → parse_ipv6 (0 ∷ 0 ∷ 0 ∷ 4 ∷ rest) ≡ ok (target, payload)
    → (16 + 2 ≤ length rest)
      × (target ≡ ipv6 (take 16 rest) (port_at rest 16))
      × (payload ≡ drop (16 + 2) rest)
unfolding parse_ipv6
ipv6-eq-ok rest h = (ground arith, ground arith, ground arith)

ipv6_Rebuilds :
    (rest : Bytes) {target : TargetAddr} {payload : Bytes}
    → AreBytes rest
    → parse_ipv6 (0 ∷ 0 ∷ 0 ∷ 4 ∷ rest) ≡ ok (target, payload)
    → Rebuilds (0 ∷ 0 ∷ 0 ∷ 4 ∷ rest) target payload
unfolding build_socks5_udp_response source_bytes
ipv6_Rebuilds rest {target} {payload} bytes h =
    let (long, t, p) = ipv6-eq-ok rest h in
    rw (t, p)
      (
        (take-length 16 rest (omega arith), port_at-lt rest 16 bytes),
        rw (append_assoc (take 16 rest) (to_be_bytes (port_at rest 16)) (drop (16 + 2) rest))
            (ap (λ r. 0 ∷ 0 ∷ 0 ∷ 4 ∷ r) (rejoin 16 rest bytes long)),
      )

named-eq-ok :
    (o : Option Bytes) (port : ℕ) (rest : Bytes) {target : TargetAddr} {payload : Bytes}
    → named o port rest ≡ ok (target, payload)
    → (name : Bytes) × (o ≡ some name) × (target ≡ domain name port) × (payload ≡ rest)
named-eq-ok none port rest h = absurd (cc)
named-eq-ok (some name) port rest h = (name, refl, ground arith, ground arith)

-- The domain arm, with the offsets counted from behind the length byte.
domain-eq-ok :
    (len : ℕ) (rest : Bytes) {target : TargetAddr} {payload : Bytes}
    → parse_domain (0 ∷ 0 ∷ 0 ∷ 3 ∷ len ∷ rest) ≡ ok (target, payload)
    → (len + 2 ≤ length rest)
      × (named (from_utf8 (take len rest)) (port_at rest len) (drop (len + 2) rest)
          ≡ ok (target, payload))
unfolding parse_domain
domain-eq-ok len rest h =
    let header : Bytes = 0 ∷ 0 ∷ 0 ∷ 3 ∷ len ∷ [] in
    let e : 5 + len + 2 ≡ suc (suc (suc (suc (suc (len + 2))))) = omega arith in
    (
      ground arith,
      ground (
        arith,
        e,
        get_or-append header rest (5 + len) len (omega arith),
        get_or-append header rest (5 + len + 1) (len + 1) (omega arith),
      ),
    )

domain_Rebuilds :
    (len : ℕ) (rest : Bytes) {target : TargetAddr} {payload : Bytes}
    → AreBytes (len ∷ rest)
    → parse_domain (0 ∷ 0 ∷ 0 ∷ 3 ∷ len ∷ rest) ≡ ok (target, payload)
    → Rebuilds (0 ∷ 0 ∷ 0 ∷ 3 ∷ len ∷ rest) target payload
unfolding build_socks5_udp_response source_bytes
domain_Rebuilds len rest {target} {payload} bytes h =
    let (long, named_ok) = domain-eq-ok len rest h in
    let (name, decoded, t, p) =
      named-eq-ok (from_utf8 (take len rest)) (port_at rest len) (drop (len + 2) rest) named_ok in
    let (same, valid) = from_utf8-eq-some (take len rest) decoded in
    let short = take-length len rest (omega arith) in
    rw (t, p, same)
      (
        (omega (arith, short, bytes.0), valid, port_at-lt rest len bytes.1),
        rw
            (
              short,
              to_u8_small len bytes.0,
              append_assoc (take len rest) (to_be_bytes (port_at rest len)) (drop (len + 2) rest),
            )
            (ap (λ r. 0 ∷ 0 ∷ 0 ∷ 3 ∷ len ∷ r) (rejoin len rest bytes.1 long)),
      )

domain_empty :
    {target : TargetAddr} {payload : Bytes}
    → parse_domain (0 ∷ 0 ∷ 0 ∷ 3 ∷ []) ≡ ok (target, payload)
    → ⊥
unfolding parse_domain
domain_empty h = ground arith

target-eq-ok :
    (atyp : ℕ) (octets : Bytes) {r : TargetAddr × Bytes}
    → parse_target atyp octets ≡ ok r
    → ((atyp ≡ 1) × (parse_ipv4 octets ≡ ok r))
      ⊎ (((atyp ≡ 3) × (parse_domain octets ≡ ok r)) ⊎ ((atyp ≡ 4) × (parse_ipv6 octets ≡ ok r)))
unfolding parse_target
target-eq-ok atyp octets h = elim (Bool-cases (atyp == 1)) [
  | inl one ↦ inl (ground arith, ground arith)
  | inr not_one ↦ elim (Bool-cases (atyp == 3)) [
    | inl three ↦ inr (inl (ground arith, ground arith))
    | inr not_three ↦ inr (inr (ground arith, ground arith))
  ]
]

target_Rebuilds :
    (atyp : ℕ) (rest : Bytes) {target : TargetAddr} {payload : Bytes}
    → AreBytes rest
    → ((atyp ≡ 1) × (parse_ipv4 (0 ∷ 0 ∷ 0 ∷ atyp ∷ rest) ≡ ok (target, payload)))
      ⊎ (((atyp ≡ 3) × (parse_domain (0 ∷ 0 ∷ 0 ∷ atyp ∷ rest) ≡ ok (target, payload)))
          ⊎ ((atyp ≡ 4) × (parse_ipv6 (0 ∷ 0 ∷ 0 ∷ atyp ∷ rest) ≡ ok (target, payload))))
    → Rebuilds (0 ∷ 0 ∷ 0 ∷ atyp ∷ rest) target payload
target_Rebuilds atyp rest bytes (inl (e, h)) = rw e (ipv4_Rebuilds rest bytes (rw e at h))
target_Rebuilds atyp [] bytes (inr (inl (e, h))) = absurd (domain_empty (rw e at h))
target_Rebuilds atyp (len ∷ rest) bytes (inr (inl (e, h))) =
    rw e (domain_Rebuilds len rest bytes (rw e at h))
target_Rebuilds atyp rest bytes (inr (inr (e, h))) = rw e (ipv6_Rebuilds rest bytes (rw e at h))

header-eq-ok :
    (a b c d : ℕ) (rest : Bytes) {target : TargetAddr} {payload : Bytes}
    → parse_socks5_udp_packet (a ∷ b ∷ c ∷ d ∷ rest) ≡ ok (target, payload)
    → (a ≡ 0) × (b ≡ 0) × (c ≡ 0) × (parse_target d (a ∷ b ∷ c ∷ d ∷ rest) ≡ ok (target, payload))
unfolding parse_socks5_udp_packet
header-eq-ok a b c d rest h = (ground arith, ground arith, ground arith, ground arith)

too_short :
    (octets : Bytes) {r : TargetAddr × Bytes}
    → parse_socks5_udp_packet octets ≡ ok r
    → 7 ≤ length octets
unfolding parse_socks5_udp_packet
too_short octets h = ground arith

-- A packet of bytes that is accepted is the packet that would be built for the target and the
-- payload that were read, and the target is well formed: nothing is misread, dropped or made up.
pub parse-Rebuilds :
    (octets : Bytes) {target : TargetAddr} {payload : Bytes}
    → AreBytes octets
    → parse_socks5_udp_packet octets ≡ ok (target, payload)
    → IsTarget target × (build_socks5_udp_response target payload ≡ octets)
parse-Rebuilds [] bytes h = absurd (omega (arith, too_short [] h))
parse-Rebuilds (a ∷ []) bytes h = absurd (omega (arith, too_short (a ∷ []) h))
parse-Rebuilds (a ∷ b ∷ []) bytes h = absurd (omega (arith, too_short (a ∷ b ∷ []) h))
parse-Rebuilds (a ∷ b ∷ c ∷ []) bytes h = absurd (omega (arith, too_short (a ∷ b ∷ c ∷ []) h))
parse-Rebuilds (a ∷ b ∷ c ∷ d ∷ rest) bytes h =
    let (ea, eb, ec, k) = header-eq-ok a b c d rest h in
    rw (ea, eb, ec)
      (target_Rebuilds d rest bytes.1.1.1.1
        (target-eq-ok d (0 ∷ 0 ∷ 0 ∷ d ∷ rest) (rw (ea, eb, ec) at k)))
