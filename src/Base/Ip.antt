-- ===== src/Base/Ip.antt =====
-- The text of an IP address, as `Display` of std::net writes it. An IPv4 address is its four
-- octets, an IPv6 address its sixteen.
use peregrine_proxy.Base.{
  ℕ, ◌≡◌, refl, zero, suc, ◌+◌, ◌*◌, ◌/◌, ◌%◌, Bool, ◌&&◌, List, [], ◌∷◌, ◌++◌, ltb, ◌==◌, list_eq,
  if◌then◌else◌, take, drop, get_or, replicate,
}
use peregrine_proxy.Base.Text.{Bytes, codes}
use peregrine_proxy.Base.Decimal.{decimal}

unfoldable pub ipv4_text : Bytes → Bytes
ipv4_text octets =
    decimal (get_or octets 0 0)
    ++ (b'.'
        ∷ (decimal (get_or octets 1 0)
            ++ (b'.' ∷ (decimal (get_or octets 2 0) ++ (b'.' ∷ decimal (get_or octets 3 0))))))

hex_digit : ℕ → ℕ
hex_digit n = if ltb n 10 then 48 + n else 87 + n

-- `{:x}` of a number below 16 ^ fuel.
hex_from : ℕ → ℕ → Bytes
unfolding hex_digit
hex_from zero n = []
hex_from (suc f) n =
    let rest = hex_from f (n / 16) in
    if ltb n 16 then hex_digit n ∷ [] else rest ++ hex_digit (n % 16) ∷ []

-- The eight segments of sixteen octets.
segments_of : Bytes → List ℕ
segments_of (hi ∷ lo ∷ rest) = (hi * 256 + lo) ∷ segments_of rest
segments_of rest = []

pub record Span : Type 0 where
  pub start : ℕ
  pub len : ℕ

no_span : Span
no_span = record { start = 0; len = 0 }

-- The run that goes on at position i.
grow : ℕ → Span → Span
grow i run = record { start = if run.len == 0 then i else run.start; len = run.len + 1 }

-- The first longest run of zero segments.
zero_run : ℕ → Span → Span → List ℕ → Span
unfolding no_span grow
zero_run i current longest [] = longest
zero_run i current longest (x ∷ xs) =
    let grown = grow i current in
    zero_run (i + 1) (if x == 0 then grown else no_span)
      (if (x == 0) && ltb longest.len grown.len then grown else longest) xs

colon_separated : List ℕ → Bytes
unfolding hex_from
colon_separated [] = []
colon_separated (x ∷ []) = hex_from 4 x
colon_separated (x ∷ y ∷ xs) = hex_from 4 x ++ b':' ∷ colon_separated (y ∷ xs)

is_mapped : Bytes → Bool
is_mapped octets = list_eq (take 12 octets) (replicate 10 0 ++ 255 ∷ 255 ∷ [])

unfoldable pub ipv6_text : Bytes → Bytes
unfolding segments_of zero_run colon_separated is_mapped ipv4_text decimal
ipv6_text octets =
    let segments = segments_of octets in
    let zeroes = zero_run 0 no_span no_span segments in
    if is_mapped octets
    then codes "::ffff:" ++ ipv4_text (drop 12 octets)
    else if ltb 1 zeroes.len
    then colon_separated (take zeroes.start segments)
      ++ codes "::"
      ++ colon_separated (drop (zeroes.start + zeroes.len) segments)
    else colon_separated segments

loopback_text : ipv6_text (replicate 15 0 ++ 1 ∷ []) ≡ codes "::1"
unfolding ipv6_text
loopback_text = refl

documentation_text :
    ipv6_text (0x20 ∷ 0x01 ∷ 0x0d ∷ 0xb8 ∷ 0 ∷ 0 ∷ 0 ∷ 0 ∷ 0 ∷ 1 ∷ 0 ∷ 0 ∷ 0 ∷ 0 ∷ 0 ∷ 0xaf ∷ [])
    ≡ codes "2001:db8::1:0:0:af"
unfolding ipv6_text
documentation_text = refl
