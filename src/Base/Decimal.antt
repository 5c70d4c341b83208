-- ===== src/Base/Decimal.antt =====
-- `{}` of an unsigned number, and `str::parse` into `u16` and `u8` (core::num::from_str_radix).
pub mod Short
use mathlib.Core.List.{append-nil, append_assoc}
use peregrine_proxy.Base.{
  ℕ, zero, suc, ◌+◌, ◌-◌, ◌*◌, ◌/◌, ◌%◌, ◌≤◌, ◌<◌, ◌≡◌, Bool, ◌&&◌, Option, none, some, [], ◌∷◌,
  ◌++◌, arith, leb, ltb, ◌==◌, if◌then◌else◌, All, All-append, Bool-cases, inl, inr,
}
use peregrine_proxy.Base.Text.{Bytes}

-- The decimal digits of a number below the fuel, the most significant first.
digits_of : ℕ → ℕ → Bytes
digits_of zero n = []
digits_of (suc f) n =
    let rest = digits_of f (n / 10) in
    if ltb n 10 then (48 + n) ∷ [] else rest ++ ((48 + n % 10) ∷ [])

unfoldable pub decimal : ℕ → Bytes
unfolding digits_of
decimal n = digits_of (n + 1) n

abbrev pub is_digit : ℕ → Bool
is_digit b = leb b'0' b && leb b b'9'

-- The digits read so far stand for `acc`; a value above `top` is an overflow.
parse_digits : ℕ → ℕ → Bytes → Option ℕ
parse_digits top acc [] = some acc
parse_digits top acc (b ∷ bs) =
    if is_digit b && leb (acc * 10 + (b - 48)) top
    then parse_digits top (acc * 10 + (b - 48)) bs
    else none

parse_nonempty : ℕ → Bytes → Option ℕ
unfolding parse_digits
parse_nonempty top [] = none
parse_nonempty top (b ∷ bs) = parse_digits top 0 (b ∷ bs)

-- One leading plus sign is accepted; the empty text and a lone sign are not.
parse_unsigned : ℕ → Bytes → Option ℕ
unfolding parse_nonempty
parse_unsigned top [] = none
parse_unsigned top (b ∷ bs) =
    if b == b'+' then parse_nonempty top bs else parse_nonempty top (b ∷ bs)

unfoldable pub parse_u16 : Bytes → Option ℕ
unfolding parse_unsigned
parse_u16 = parse_unsigned 65535

unfoldable pub parse_u8 : Bytes → Option ℕ
unfolding parse_unsigned
parse_u8 = parse_unsigned 255

unfoldable pub parse_usize : Bytes → Option ℕ
unfolding parse_unsigned
parse_usize = parse_unsigned 18446744073709551615

abbrev pub IsDigit : ℕ → Type 0
IsDigit b = (48 ≤ b) × (b ≤ 57)

digits_of-All : (f n : ℕ) → All IsDigit (digits_of f n)
unfolding digits_of
digits_of-All zero n = tt
digits_of-All (suc f) n = elim (Bool-cases (ltb n 10)) [
  | inl small ↦ rw small (ground arith)
  | inr large ↦
      rw large
        (All-append IsDigit (digits_of f (n / 10)) _ (digits_of-All f (n / 10)) (omega arith))
]

pub decimal-All : (n : ℕ) → All IsDigit (decimal n)
unfolding decimal
decimal-All n = digits_of-All (n + 1) n

-- Reading the digits of a number and going on is going on from the number.
parse_digits-digits_of :
    (f n top : ℕ) (rest : Bytes)
    → n < f
    → n ≤ top
    → parse_digits top 0 (digits_of f n ++ rest) ≡ parse_digits top n rest
unfolding digits_of parse_digits
parse_digits-digits_of zero n top rest h k = elim h [ ]
parse_digits-digits_of (suc f) n top rest h k = elim (Bool-cases (ltb n 10)) [
  | inl small ↦ rw small (ground arith)
  | inr large ↦
      rw
        (
          large,
          append_assoc (digits_of f (n / 10)) ((48 + n % 10) ∷ []) rest,
          parse_digits-digits_of f (n / 10) top ((48 + n % 10) ∷ rest) (ground arith) (omega arith),
        )
        (ground arith)
]

first_digit : (f n : ℕ) → n < f → (d : ℕ) × (ds : Bytes) × (digits_of f n ≡ d ∷ ds) × (48 ≤ d)
unfolding digits_of
first_digit zero n h = elim h [ ]
first_digit (suc f) n h = elim (Bool-cases (ltb n 10)) [
  | inl small ↦ (48 + n, [], rw small, omega arith)
  | inr large ↦
      let (d, ds, e, k) = first_digit f (n / 10) (ground arith) in
      (d, ds ++ ((48 + n % 10) ∷ []), rw (large, e), k)
]

parse_unsigned-digits :
    (top n : ℕ) (ds : Bytes) (d : ℕ)
    → parse_digits top 0 (d ∷ ds) ≡ some n
    → 48 ≤ d
    → parse_unsigned top (d ∷ ds) ≡ some n
unfolding parse_unsigned
parse_unsigned-digits top n ds d e k = ground arith

parse_digits-decimal : (top n : ℕ) → n ≤ top → parse_digits top 0 (digits_of (n + 1) n) ≡ some n
unfolding parse_digits
parse_digits-decimal top n k =
    rw (append-nil (digits_of (n + 1) n)) at
      (parse_digits-digits_of (n + 1) n top [] (omega arith) k)

parse_unsigned-decimal : (top n : ℕ) → n ≤ top → parse_unsigned top (decimal n) ≡ some n
unfolding decimal
parse_unsigned-decimal top n k =
    let (d, ds, e, h) = first_digit (n + 1) n (omega arith) in
    rw e (parse_unsigned-digits top n ds d (rw e at (parse_digits-decimal top n k)) h)

pub parse_u16-decimal : (n : ℕ) → n < 65536 → parse_u16 (decimal n) ≡ some n
unfolding parse_u16
parse_u16-decimal n h = parse_unsigned-decimal 65535 n (omega arith)

pub parse_u8-decimal : (n : ℕ) → n < 256 → parse_u8 (decimal n) ≡ some n
unfolding parse_u8
parse_u8-decimal n h = parse_unsigned-decimal 255 n (omega arith)

pub parse_usize-decimal : (n : ℕ) → n < 18446744073709551616 → parse_usize (decimal n) ≡ some n
unfolding parse_usize
parse_usize-decimal n h = parse_unsigned-decimal 18446744073709551615 n (omega arith)
