-- ===== src/Base/IpParse.antt =====
-- `str::parse` into `Ipv4Addr` and `Ipv6Addr`, as the parser of std::net reads them.
pub mod Sizes
pub mod Dotted
use peregrine_proxy.Base.{
  ℕ, zero, suc, ◌+◌, ◌-◌, ◌*◌, ◌/◌, ◌%◌, ◌≡◌, refl, Bool, true, false, ◌&&◌, ◌||◌, not, Option,
  none, some, List, [], ◌∷◌, ◌++◌, length, leb, ltb, ◌==◌, if◌then◌else◌, replicate, get_or,
}
use peregrine_proxy.Base.Text.{Bytes, codes}

infixl 5 ◌>>=◌ ◌>>◌
abbrev ◌>>=◌ : {A B : Type 0} → Option A → (A → Option B) → Option B
none >>= f = none
some a >>= f = f a

abbrev ◌>>◌ : {B : Type 0} → Option (Unit {0}) → Option B → Option B
m >> k = m >>= λ _. k

abbrev require : Bool → Option (Unit {0})
require true = some tt
require false = none

-- `char::to_digit`.
digit_value : ℕ → ℕ → Option ℕ
digit_value radix b =
    if leb b'0' b && leb b b'9'
    then (if ltb (b - 48) radix then some (b - 48) else none)
    else if leb b'a' b && leb b b'f'
    then (if ltb (b - 87) radix then some (b - 87) else none)
    else if leb b'A' b && leb b b'F'
    then (if ltb (b - 55) radix then some (b - 55) else none)
    else none

-- The digits at the front, as their number, their value, and what follows.
read_digits : ℕ → ℕ → ℕ → Bytes → ℕ × ℕ × Bytes
unfolding digit_value
read_digits radix count value [] = (count, value, [])
read_digits radix count value (b ∷ bs) = elim (digit_value radix b) [
  | none ↦ (count, value, b ∷ bs)
  | some d ↦ read_digits radix (count + 1) (value * radix + d) bs
]

-- `read_number(radix, Some(max_digits), allow_zero_prefix)` into a type with the maximum `top`.
read_number : ℕ → ℕ → Bool → ℕ → Bytes → Option (ℕ × Bytes)
unfolding read_digits
read_number radix max_digits allow_zero_prefix top bs =
    let (count, value, rest) = read_digits radix 0 0 bs in
    do
      require (leb 1 count && leb count max_digits)
      require (allow_zero_prefix || (not (get_or bs 0 0 == b'0') || leb count 1))
      require (leb value top)
      some (value, rest)

read_char : ℕ → Bytes → Option Bytes
read_char c [] = none
read_char c (b ∷ bs) = if b == c then some bs else none

read_octet : Bytes → Option (ℕ × Bytes)
unfolding read_number
read_octet = read_number 10 3 false 255

unfoldable pub read_ipv4 : Bytes → Option (Bytes × Bytes)
unfolding read_octet read_char
read_ipv4 bs = do
  (a, bs1) ← read_octet bs
  bs2 ← read_char b'.' bs1
  (b, bs3) ← read_octet bs2
  bs4 ← read_char b'.' bs3
  (c, bs5) ← read_octet bs4
  bs6 ← read_char b'.' bs5
  (d, rest) ← read_octet bs6
  some (a ∷ b ∷ c ∷ d ∷ [], rest)

abbrev pub at_end : Bytes × Bytes → Option Bytes
at_end (octets, []) = some octets
at_end (octets, b ∷ bs) = none

unfoldable pub parse_ipv4 : Bytes → Option Bytes
parse_ipv4 text = read_ipv4 text >>= at_end

read_group : Bytes → Option (ℕ × Bytes)
unfolding read_number
read_group = read_number 16 4 true 65535

-- `read_separator(':', i, ..)`: the colon stands before every group but the first.
separated : {A : Type 0} → Bool → (Bytes → Option A) → Bytes → Option A
separated true read bs = read bs
separated false read bs = read_char b':' bs >>= read

-- What `read_groups` has read: the octets of its groups, whether the last of them were written as
-- an IPv4 address, and what follows.
pub record Groups : Type 0 where
  pub octets : Bytes
  pub ends_in_ipv4 : Bool
  pub rest : Bytes

add_group : ℕ → Groups → Groups
add_group g r = record r { octets = g / 256 ∷ g % 256 ∷ r.octets }

-- An IPv4 address takes the place of two groups, so it is tried where two places are left.
try_ipv4 : ℕ → Bool → Bytes → Option (Bytes × Bytes)
unfolding separated read_char
try_ipv4 zero first bs = none
try_ipv4 (suc n) first bs = separated first read_ipv4 bs

read_groups : ℕ → Bool → Bytes → Groups
unfolding try_ipv4 read_group add_group
read_groups zero first bs = record { octets = []; ends_in_ipv4 = false; rest = bs }
read_groups (suc n) first bs = elim (try_ipv4 n first bs) [
  | some (ip, rest) ↦ record { octets = ip; ends_in_ipv4 = true; rest = rest }
  | none ↦ elim (separated first read_group bs) [
    | none ↦ record { octets = []; ends_in_ipv4 = false; rest = bs }
    | some (g, rest) ↦ add_group g (read_groups n false rest)
  ]
]

-- The part behind `::`, with the zeroes between the two parts.
fill : Bytes → Groups → Bytes × Bytes
fill head tail =
    (head ++ (replicate (16 - length head - length tail.octets) 0 ++ tail.octets), tail.rest)

read_ipv6 : Bytes → Option (Bytes × Bytes)
unfolding read_groups read_char fill
read_ipv6 bs =
    let head = read_groups 8 true bs in
    let compressed : Option (Bytes × Bytes) = (do
      bs1 ← read_char b':' head.rest
      bs2 ← read_char b':' bs1
      some (fill head.octets (read_groups (8 - (length head.octets / 2 + 1)) true bs2))) in
    if length head.octets == 16
    then some (head.octets, head.rest)
    else if head.ends_in_ipv4
    then none
    else compressed

unfoldable pub parse_ipv6 : Bytes → Option Bytes
unfolding read_ipv6
parse_ipv6 text = read_ipv6 text >>= at_end

parse_dotted : parse_ipv4 (codes "10.0.255.1") ≡ some (10 ∷ 0 ∷ 255 ∷ 1 ∷ [])
unfolding parse_ipv4 read_ipv4
parse_dotted = refl

parse_leading_zero : parse_ipv4 (codes "10.01.2.3") ≡ none
unfolding parse_ipv4 read_ipv4
parse_leading_zero = refl

parse_loopback : parse_ipv6 (codes "::1") ≡ some (replicate 15 0 ++ 1 ∷ [])
unfolding parse_ipv6 read_ipv4
parse_loopback = refl

parse_mapped :
    parse_ipv6 (codes "::ffff:1.2.3.4") ≡ some (replicate 10 0 ++ 255 ∷ 255 ∷ 1 ∷ 2 ∷ 3 ∷ 4 ∷ [])
unfolding parse_ipv6 read_ipv4
parse_mapped = refl

parse_host_name : parse_ipv6 (codes "example.com") ≡ none
unfolding parse_ipv6 read_ipv4
parse_host_name = refl
