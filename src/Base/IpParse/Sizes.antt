-- ===== src/Base/IpParse/Sizes.antt =====
-- A parsed address has the octets of its kind.
use peregrine_proxy.Base.{
  ℕ, zero, suc, ◌+◌, ◌-◌, ◌*◌, ◌/◌, ◌≤◌, ◌≡◌, refl, ap, inl, inr, Bool-cases, Option-cases, Bool,
  true, false, Option, none, some, [], ◌∷◌, ◌++◌, length, length-append, replicate, ◌==◌, arith,
}
use peregrine_proxy.Base.Text.{Bytes}
use peregrine_proxy.Base.IpParse.{
  ◌>>=◌, at_end, read_octet, read_char, read_ipv4, parse_ipv4, read_group, separated, Groups,
  add_group, try_ipv4, read_groups, fill, read_ipv6, parse_ipv6,
}

bind-eq-some :
    {A B : Type 0} (m : Option A) (f : A → Option B) {b : B}
    → (m >>= f) ≡ some b
    → (a : A) × (m ≡ some a) × (f a ≡ some b)
bind-eq-some none f h = absurd (cc)
bind-eq-some (some a) f h = (a, refl, h)

at_end-eq-some : (r : Bytes × Bytes) {octets : Bytes} → at_end r ≡ some octets → r.0 ≡ octets
at_end-eq-some (octets, []) h = cc
at_end-eq-some (octets, b ∷ bs) h = absurd (cc)

read_ipv4-length : (bs : Bytes) {r : Bytes × Bytes} → read_ipv4 bs ≡ some r → length r.0 ≡ 4
unfolding read_ipv4
read_ipv4-length bs h =
    let (a, e1, h1) = bind-eq-some (read_octet bs) _ h in
    let (bs2, e2, h2) = bind-eq-some (read_char b'.' a.1) _ h1 in
    let (b, e3, h3) = bind-eq-some (read_octet bs2) _ h2 in
    let (bs4, e4, h4) = bind-eq-some (read_char b'.' b.1) _ h3 in
    let (c, e5, h5) = bind-eq-some (read_octet bs4) _ h4 in
    let (bs6, e6, h6) = bind-eq-some (read_char b'.' c.1) _ h5 in
    let (d, e7, h7) = bind-eq-some (read_octet bs6) _ h6 in ground arith

pub parse_ipv4-length :
    (text : Bytes) {octets : Bytes} → parse_ipv4 text ≡ some octets → length octets ≡ 4
unfolding parse_ipv4
parse_ipv4-length text h =
    let (r, e, k) = bind-eq-some (read_ipv4 text) at_end h in
    rw (at_end-eq-some r k) at (read_ipv4-length text e)

try_ipv4-length :
    (n : ℕ) (first : Bool) (bs : Bytes) {r : Bytes × Bytes}
    → try_ipv4 n first bs ≡ some r
    → (length r.0 ≡ 4) × (1 ≤ n)
unfolding try_ipv4 separated
try_ipv4-length zero first bs h = absurd (cc)
try_ipv4-length (suc n) true bs h = (read_ipv4-length bs h, omega arith)
try_ipv4-length (suc n) false bs h =
    let (bs1, e, k) = bind-eq-some (read_char b':' bs) read_ipv4 h in
    (read_ipv4-length bs1 k, omega arith)

read_groups-length :
    (n : ℕ) (first : Bool) (bs : Bytes) → length (read_groups n first bs).octets ≤ 2 * n
unfolding read_groups add_group
read_groups-length zero first bs = omega arith
read_groups-length (suc n) first bs = elim (Option-cases (try_ipv4 n first bs)) [
  | inl none_left ↦
      rw (none_left, read_groups)
        (elim (Option-cases (separated first read_group bs)) [
          | inl stop ↦ rw (stop, read_groups) (omega arith)
          | inr (g, more) ↦ rw (more, read_groups) (omega (arith, read_groups-length n false g.1))
        ])
  | inr (r, found) ↦ rw (found, read_groups) (omega (arith, try_ipv4-length n first bs found))
]

length-replicate : (n : ℕ) → length {A = ℕ} (replicate n 0) ≡ n
length-replicate zero = refl
length-replicate (suc n) = ap suc (length-replicate n)

fill-length :
    (head : Bytes) (tail : Groups)
    → length head + length tail.octets ≤ 16
    → length (fill head tail).0 ≡ 16
unfolding fill
fill-length head tail h =
    let zeroes : Bytes = replicate (16 - length head - length tail.octets) 0 in
    omega (
      arith,
      length-append head (zeroes ++ tail.octets),
      length-append zeroes tail.octets,
      length-replicate (16 - length head - length tail.octets),
    )

read_ipv6-length : (bs : Bytes) {r : Bytes × Bytes} → read_ipv6 bs ≡ some r → length r.0 ≡ 16
unfolding read_ipv6
read_ipv6-length bs {r} h =
    let head = read_groups 8 true bs in
    let room = read_groups-length 8 true bs in
    elim (Bool-cases (length head.octets == 16)) [
      | inl full ↦ ground arith
      | inr short ↦ elim (Bool-cases head.ends_in_ipv4) [
        | inl ipv4 ↦ absurd (ground arith)
        | inr compressed ↦
            let (bs1, e1, h1) =
              bind-eq-some (read_char b':' head.rest) _ (rw (short, compressed) at h) in
            let (bs2, e2, h2) = bind-eq-some (read_char b':' bs1) _ h1 in
            let n : ℕ = 8 - (length head.octets / 2 + 1) in
            ground (
              arith,
              read_groups-length n true bs2,
              fill-length head.octets (read_groups n true bs2)
                  (ground (arith, read_groups-length n true bs2)),
            )
      ]
    ]

pub parse_ipv6-length :
    (text : Bytes) {octets : Bytes} → parse_ipv6 text ≡ some octets → length octets ≡ 16
unfolding parse_ipv6
parse_ipv6-length text h =
    let (r, e, k) = bind-eq-some (read_ipv6 text) at_end h in
    rw (at_end-eq-some r k) at (read_ipv6-length text e)
