-- ===== src/Base/IpParse/Dotted.antt =====
-- The text of an IPv4 address is read back.
use mathlib.Core.List.{append-nil}
use peregrine_proxy.Base.{
  ℕ, ◌+◌, ◌*◌, ◌/◌, ◌%◌, ◌≤◌, ◌<◌, ◌≡◌, refl, ap, ◌∙◌, sym, true, ◌||◌, not, Option, some, [], ◌∷◌,
  ◌++◌, leb, ltb, ◌==◌, get_or, arith, Bool-cases, inl, inr, ◌⊎◌,
}
use peregrine_proxy.Base.Text.{Bytes}
use peregrine_proxy.Base.Decimal.{decimal}
use peregrine_proxy.Base.Decimal.Short.{decimal-one, decimal-two, decimal-three}
use peregrine_proxy.Base.Ip.{ipv4_text}
use peregrine_proxy.Base.IpParse.{
  digit_value, read_digits, read_number, read_char, read_octet, read_ipv4, at_end, parse_ipv4,
  ◌>>=◌,
}

digit_value_lem : (d : ℕ) → d < 10 → digit_value 10 (48 + d) ≡ some d
unfolding digit_value
digit_value_lem d h = ground arith

-- A text that does not begin with a digit.
Stops : Bytes → Type 0
Stops rest = (rest ≡ []) ⊎ ((more : Bytes) × (rest ≡ b'.' ∷ more))

read_digits-stop :
    (count value : ℕ) (rest : Bytes)
    → Stops rest
    → read_digits 10 count value rest ≡ (count, value, rest)
unfolding read_digits Stops digit_value
read_digits-stop count value rest (inl e) = rw e refl
read_digits-stop count value rest (inr (more, e)) = rw e refl

read_digits-digit :
    (count value d count' value' : ℕ) (bs : Bytes)
    → d < 10
    → count + 1 ≡ count'
    → value * 10 + d ≡ value'
    → read_digits 10 count value ((48 + d) ∷ bs) ≡ read_digits 10 count' value' bs
unfolding read_digits
read_digits-digit count value d count' value' bs h e k =
    rw (digit_value_lem d h, read_digits)
      (ap (λ c. read_digits 10 c (value * 10 + d) bs) e ∙ ap (λ v. read_digits 10 count' v bs) k)

-- Reading an octet's text, by its number of digits.
read_octet_lem :
    (bs rest : Bytes) (count value : ℕ)
    → read_digits 10 0 0 bs ≡ (count, value, rest)
    → 1 ≤ count
    → count ≤ 3
    → value ≤ 255
    → (not (get_or bs 0 0 == 48) || leb count 1) ≡ true
    → read_octet bs ≡ some (value, rest)
unfolding read_octet read_number
read_octet_lem bs rest count value e l u v z = ground arith

reads-one :
    (n : ℕ) (rest : Bytes) → n < 10 → Stops rest → read_octet ((48 + n) ∷ rest) ≡ some (n, rest)
reads-one n rest h s =
    read_octet_lem ((48 + n) ∷ rest) rest 1 n
      (read_digits-digit 0 0 n 1 n rest h (omega arith) (omega arith) ∙ read_digits-stop 1 n rest s)
      (omega arith) (omega arith) (omega arith) (ground arith)

reads-two :
    (a b : ℕ) (rest : Bytes)
    → 0 < a
    → a < 10
    → b < 10
    → Stops rest
    → read_octet ((48 + a) ∷ (48 + b) ∷ rest) ≡ some (a * 10 + b, rest)
reads-two a b rest l h k s =
    read_octet_lem ((48 + a) ∷ (48 + b) ∷ rest) rest 2 (a * 10 + b)
      (read_digits-digit 0 0 a 1 a ((48 + b) ∷ rest) h (omega arith) (omega arith)
        ∙ read_digits-digit 1 a b 2 (a * 10 + b) rest k (omega arith) refl
        ∙ read_digits-stop 2 (a * 10 + b) rest s)
      (omega arith) (omega arith) (omega arith) (ground arith)

reads-three :
    (a b c : ℕ) (rest : Bytes)
    → 0 < a
    → a < 10
    → b < 10
    → c < 10
    → a * 10 * 10 + b * 10 + c < 256
    → Stops rest
    → read_octet ((48 + a) ∷ (48 + b) ∷ (48 + c) ∷ rest) ≡ some ((a * 10 + b) * 10 + c, rest)
reads-three a b c rest l h k j small s =
    read_octet_lem ((48 + a) ∷ (48 + b) ∷ (48 + c) ∷ rest) rest 3 ((a * 10 + b) * 10 + c)
      (read_digits-digit 0 0 a 1 a ((48 + b) ∷ (48 + c) ∷ rest) h (omega arith) (omega arith)
        ∙ read_digits-digit 1 a b 2 (a * 10 + b) ((48 + c) ∷ rest) k (omega arith) refl
        ∙ read_digits-digit 2 (a * 10 + b) c 3 ((a * 10 + b) * 10 + c) rest j (omega arith) refl
        ∙ read_digits-stop 3 ((a * 10 + b) * 10 + c) rest s)
      (omega arith) (omega arith) (omega arith) (ground arith)

-- Every octet's text is read back, up to a dot or the end.
read_octet-decimal :
    (n : ℕ) (rest : Bytes) → n < 256 → Stops rest → read_octet (decimal n ++ rest) ≡ some (n, rest)
read_octet-decimal n rest h s = elim (Bool-cases (ltb n 10)) [
  | inl one ↦ rw (decimal-one n (ground arith)) (reads-one n rest (ground arith) s)
  | inr more ↦ elim (Bool-cases (ltb n 100)) [
    | inl two ↦ rw (decimal-two n (ground arith) (ground arith)) (
        reads-two (n / 10) (n % 10) rest (ground arith) (ground arith) (omega arith) s
        ∙ ap (λ v. some (v, rest)) (omega arith))
    | inr three ↦ rw (decimal-three n (ground arith) (omega arith)) (
        reads-three (n / 10 / 10) (n / 10 % 10) (n % 10) rest (ground arith) (omega arith)
          (omega arith) (omega arith) (omega arith) s
        ∙ ap (λ v. some (v, rest)) (omega arith))
  ]
]

-- `read_ipv4` over any way to read an octet.
read_by : (Bytes → Option (ℕ × Bytes)) → Bytes → Option (Bytes × Bytes)
unfolding read_char
read_by octet bs = octet bs >>= λ (a, bs1). read_char b'.' bs1 >>= λ bs2. octet bs2 >>= λ (b, bs3).
    read_char b'.' bs3 >>= λ bs4. octet bs4 >>= λ (c, bs5).
    read_char b'.' bs5 >>= λ bs6. octet bs6 >>= λ (d, rest). some (a ∷ b ∷ c ∷ d ∷ [], rest)

read_ipv4_by : (bs : Bytes) → read_ipv4 bs ≡ read_by read_octet bs
unfolding read_ipv4 read_by
read_ipv4_by bs = refl

read_by-dotted :
    (octet : Bytes → Option (ℕ × Bytes)) (a b c d : ℕ) (x y z w : Bytes)
    → octet (x ++ (b'.' ∷ (y ++ (b'.' ∷ (z ++ (b'.' ∷ w))))))
      ≡ some (a, b'.' ∷ (y ++ (b'.' ∷ (z ++ (b'.' ∷ w)))))
    → octet (y ++ (b'.' ∷ (z ++ (b'.' ∷ w)))) ≡ some (b, b'.' ∷ (z ++ (b'.' ∷ w)))
    → octet (z ++ (b'.' ∷ w)) ≡ some (c, b'.' ∷ w)
    → octet w ≡ some (d, [])
    → read_by octet (x ++ (b'.' ∷ (y ++ (b'.' ∷ (z ++ (b'.' ∷ w))))))
      ≡ some (a ∷ b ∷ c ∷ d ∷ [], [])
unfolding read_by read_char
read_by-dotted octet a b c d x y z w e f g h = rw e (rw f (rw g (rw h refl)))

-- The text of an IPv4 address is parsed as the address.
pub parse_ipv4-ipv4_text :
    (a b c d : ℕ)
    → a < 256
    → b < 256
    → c < 256
    → d < 256
    → parse_ipv4 (ipv4_text (a ∷ b ∷ c ∷ d ∷ [])) ≡ some (a ∷ b ∷ c ∷ d ∷ [])
unfolding parse_ipv4 ipv4_text Stops
parse_ipv4-ipv4_text a b c d ha hb hc hd =
    ap (λ o. o >>= at_end)
      (read_ipv4_by (ipv4_text (a ∷ b ∷ c ∷ d ∷ []))
        ∙ read_by-dotted read_octet a b c d (decimal a) (decimal b) (decimal c) (decimal d)
            (read_octet-decimal a _ ha (inr (_, refl))) (read_octet-decimal b _ hb (inr (_, refl)))
            (read_octet-decimal c _ hc (inr (_, refl)))
            (rw (sym (append-nil (decimal d))) (read_octet-decimal d [] hd (inl refl))))
