-- ===== src/Metrics/Reader.antt =====
-- A reader of HTTP/1.1 answers, written from RFC 9112 and not from the source: the line of the
-- status, at most 100 header lines up to an empty one, and as many bytes as `Content-Length` says.
use peregrine_proxy.Base.{
  ℕ, zero, suc, ◌≡◌, refl, false, ◌&&◌, Option, none, some, List, [], ◌∷◌, ◌++◌, arith, leb, ◌==◌,
  if◌then◌else◌, map, length, take, drop, list_eq, contains, starts_with,
}
use peregrine_proxy.Base.Text.{Bytes, codes, lower}
use peregrine_proxy.Base.Decimal.{parse_usize}

pub record Answer : Type 0 where
  pub status : Bytes
  pub headers : List Bytes
  pub body : Bytes

keep : ℕ → Option (Bytes × Bytes) → Option (Bytes × Bytes)
keep b none = none
keep b (some (line, rest)) = some (b ∷ line, rest)

-- The text before the first CR LF, and the text after it.
unfoldable pub read_line : Bytes → Option (Bytes × Bytes)
unfolding keep
read_line [] = none
read_line (b ∷ []) = none
read_line (b ∷ c ∷ bs) =
    let more = keep b (read_line (c ∷ bs)) in if (b == 13) && (c == 10) then some ([], bs) else more

abbrev pub add_header : Bytes → Option (List Bytes × Bytes) → Option (List Bytes × Bytes)
add_header line none = none
add_header line (some (lines, rest)) = some (line ∷ lines, rest)

unfoldable pub read_headers : ℕ → Bytes → Option (List Bytes × Bytes)
unfolding read_line
read_headers zero bs = none
read_headers (suc n) bs = elim (read_line bs) [
  | none ↦ none
  | some ([], rest) ↦ some ([], rest)
  | some (c ∷ line, rest) ↦ add_header (c ∷ line) (read_headers n rest)
]

-- The value of a header line, if it has the name, which is given in small letters with `: `.
unfoldable pub header_value : Bytes → Bytes → Option Bytes
header_value name line =
    if list_eq (map lower (take (length name) line)) name
    then some (drop (length name) line)
    else none

unfoldable pub content_length : List Bytes → Option ℕ
unfolding header_value parse_usize
content_length [] = none
content_length (line ∷ lines) = elim (header_value (codes "content-length: ") line) [
  | none ↦ content_length lines
  | some value ↦ parse_usize value
]

-- The body and what follows it.
unfoldable pub read_body : Bytes → List Bytes → Bytes → ℕ → Option (Answer × Bytes)
read_body status headers bs n =
    if leb n (length bs)
    then some (record { status = status; headers = headers; body = take n bs }, drop n bs)
    else none

infixl 5 ◌>>=◌
abbrev ◌>>=◌ : {A B : Type 0} → Option A → (A → Option B) → Option B
none >>= f = none
some a >>= f = f a

unfoldable pub read_answer : Bytes → Option (Answer × Bytes)
read_answer bs = do
  (line, rest) ← read_line bs
  (headers, rest') ← read_headers 100 rest
  n ← content_length headers
  if starts_with (codes "HTTP/1.1 ") line then read_body (drop 9 line) headers rest' n else none

-- A line without a carriage return is read whole.
pub read_line-line :
    (line rest : Bytes)
    → contains line 13 ≡ false
    → read_line (line ++ 13 ∷ 10 ∷ rest) ≡ some (line, rest)
unfolding read_line
read_line-line [] rest h = refl
read_line-line (b ∷ []) rest h = ground (arith, read_line-line [] rest)
read_line-line (b ∷ c ∷ line) rest h = ground (arith, read_line-line (c ∷ line) rest)
