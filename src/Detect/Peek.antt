-- ===== src/Detect/Peek.antt =====
-- The buffer that `handle_connection` of src/server.rs peeks into, and what its padding does.
use mathlib.Core.List.{append_assoc}
use peregrine_proxy.Base.{
  ℕ, inl, inr, ap, &&_iff, ◌∙◌, zero, suc, ◌≤◌, ◌<◌, ◌≡◌, ◌≢◌, refl, Bool, true, false, ◌&&◌, List,
  [], ◌∷◌, ◌++◌, length, take, replicate, All, arith,
}
use peregrine_proxy.Base.Text.{Bytes}
use peregrine_proxy.Detect.{
  DetectedProtocol, http, socks5, unknown, methods, detect_protocol, fits_method,
  is_http_method_prefix,
}
use peregrine_proxy.Detect.Methods.{Any, Compatible, detect_protocol-http_iff}

-- `[0u8; 8]` after a `peek` that found these bytes.
unfoldable pub peek_buffer : Bytes → Bytes
peek_buffer found = take 8 (found ++ replicate 8 0)

all : {A : Type 0} → (A → Bool) → List A → Bool
all p [] = true
all p (x ∷ xs) = p x && all p xs

is_unknown : DetectedProtocol → Bool
is_unknown unknown = true
is_unknown _ = false

-- Every proper beginning of a method, but the empty one, is unknown once it is padded.
proper_beginnings : Bytes → Bytes → List Bytes
proper_beginnings before [] = []
proper_beginnings before (x ∷ []) = []
proper_beginnings before (x ∷ y ∷ rest) =
    (before ++ x ∷ []) ∷ proper_beginnings (before ++ x ∷ []) (y ∷ rest)

padded_unknown : Bytes → Bool
unfolding peek_buffer is_unknown
padded_unknown found = is_unknown (detect_protocol (peek_buffer found))

beginnings_table : all (λ method. all padded_unknown (proper_beginnings [] method)) methods ≡ true
unfolding all padded_unknown proper_beginnings detect_protocol is_unknown is_http_method_prefix
    fits_method
beginnings_table = refl

all_beginnings :
    (p : Bytes → Bool) (before bs rest : Bytes) (x y : ℕ)
    → all p (proper_beginnings before (x ∷ (bs ++ y ∷ rest))) ≡ true
    → p (before ++ x ∷ bs) ≡ true
unfolding all proper_beginnings
all_beginnings p before [] rest x y h = ground arith
all_beginnings p before (z ∷ bs) rest x y h =
    rw (append_assoc before (x ∷ []) (z ∷ bs)) at
      (all_beginnings p (before ++ x ∷ []) bs rest z y (ground arith))

method_table :
    (ms : List Bytes) (method : Bytes)
    → all (λ m. all padded_unknown (proper_beginnings [] m)) ms ≡ true
    → Any (λ m. m ≡ method) ms
    → all padded_unknown (proper_beginnings [] method) ≡ true
unfolding all
method_table [] method h k = absurd k
method_table (m ∷ ms) method h (inl e) =
    rw e at ((&&_iff (all padded_unknown (proper_beginnings [] m)) _).0 h).0
method_table (m ∷ ms) method h (inr k) = method_table ms method (ground arith) k

padded_unknown_lem :
    (found : Bytes) → padded_unknown found ≡ true → detect_protocol (peek_buffer found) ≡ unknown
unfolding padded_unknown is_unknown
padded_unknown_lem found h =
    elim (detect_protocol (peek_buffer found)) as (λ d. is_unknown d ≡ true → d ≡ unknown) [
      | http ↦ λ h. absurd (cc)
      | socks5 ↦ λ h. absurd (cc)
      | unknown ↦ λ h. refl
    ]
      h

-- When the first segment of a connection ends inside the method of an HTTP request, the padded
-- buffer is taken for an unknown protocol, although the bytes alone would be taken for HTTP.
pub peek_buffer_unknown :
    (bs rest : Bytes) (x y : ℕ)
    → Any (λ method. method ≡ x ∷ (bs ++ y ∷ rest)) methods
    → (detect_protocol (peek_buffer (x ∷ bs)) ≡ unknown) × (detect_protocol (x ∷ bs) ≡ http)
peek_buffer_unknown bs rest x y h = (
  padded_unknown_lem (x ∷ bs) (
      all_beginnings padded_unknown [] bs rest x y
        (method_table methods (x ∷ (bs ++ y ∷ rest)) beginnings_table h)),
  (detect_protocol-http_iff (x ∷ bs)).1 ((λ e. cc), compatible methods h),
)
  where
    compatible :
        (ms : List Bytes) → Any (λ m. m ≡ x ∷ (bs ++ y ∷ rest)) ms → Any (Compatible (x ∷ bs)) ms
    compatible [] k = absurd k
    compatible (m ∷ ms) (inl e) = inl (inr (y ∷ rest, e))
    compatible (m ∷ ms) (inr k) = inr (compatible ms k)

take-append_long :
    (n : ℕ) (xs ys : Bytes) → length xs ≤ n → (r : Bytes) × (take n (xs ++ ys) ≡ xs ++ r)
take-append_long n [] ys h = (take n ys, refl)
take-append_long zero (x ∷ xs) ys h = absurd (omega arith)
take-append_long (suc n) (x ∷ xs) ys h =
    let (r, e) = take-append_long n xs ys (omega arith) in (r, ap (◌∷◌ x) e)

nonempty_of_length :
    (m method r : Bytes) {buf : Bytes} → buf ≡ method ++ r → m ≡ method → 0 < length m → buf ≢ []
nonempty_of_length m [] r e k h z = omega (arith, ap length k)
nonempty_of_length m (x ∷ method) r e k h z = cc

-- When the first segment holds a whole method, the padded buffer is taken for HTTP.
pub peek_buffer_http :
    (method rest : Bytes)
    → Any (λ m. m ≡ method) methods
    → detect_protocol (peek_buffer (method ++ rest)) ≡ http
unfolding peek_buffer
peek_buffer_http method rest h =
    (detect_protocol-http_iff (peek_buffer (method ++ rest))).1 (whole methods (omega arith) h)
  where
    whole :
        (ms : List Bytes)
        → All (λ m. (0 < length m) × (length m ≤ 8)) ms
        → Any (λ m. m ≡ method) ms
        → (peek_buffer (method ++ rest) ≢ []) × Any (Compatible (peek_buffer (method ++ rest))) ms
    whole [] fits k = absurd k
    whole (m ∷ ms) fits (inl e) =
        let (r, same) = take-append_long 8 method (rest ++ replicate 8 0) (rw e at fits.0.1) in
        let seen = ap (take 8) (append_assoc method rest (replicate 8 0)) ∙ same in
        (nonempty_of_length m method r seen e fits.0.0, inl (inl (r, rw e seen)))
    whole (m ∷ ms) fits (inr k) = let (ne, any) = whole ms fits.1 k in (ne, inr any)
