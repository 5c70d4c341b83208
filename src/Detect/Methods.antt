-- ===== src/Detect/Methods.antt =====
-- What `detect_protocol` recognises, by an independent description of the methods.
use mathlib.Core.List.{append-nil}
use peregrine_proxy.Base.{
  ℕ, ||_iff, Bool-cases, ◌∙◌, ◌≡◌, ◌≢◌, refl, ◌↔◌, ◌⊎◌, inl, inr, Bool, true, false, ◌&&◌, ◌||◌,
  List, [], ◌∷◌, ◌++◌, any, length, length-append, take, take-append, ltb, leb, list_eq,
  list_eq_refl, starts_with, starts_with-append, starts_with→append, arith,
}
use peregrine_proxy.Base.Text.{Bytes, codes}
use peregrine_proxy.Detect.{
  http, socks5, methods, fits_method, is_http_method_prefix, detect_protocol,
}

-- One text is a beginning of the other.
abbrev pub Compatible : Bytes → Bytes → Type 0
Compatible buf method =
    ((rest : Bytes) × (buf ≡ method ++ rest)) ⊎ ((rest : Bytes) × (method ≡ buf ++ rest))

abbrev pub Any : (Bytes → Type 0) → List Bytes → Type 0
Any P [] = ⊥
Any P (x ∷ xs) = P x ⊎ Any P xs

-- `list_eq` of a slice is a prefix test.
take_eq→append :
    (method buf : Bytes)
    → list_eq (take (length method) buf) method ≡ true
    → (rest : Bytes) × (buf ≡ method ++ rest)
take_eq→append [] buf h = (buf, refl)
take_eq→append (x ∷ method) [] h = absurd (cc)
take_eq→append (x ∷ method) (y ∷ buf) h =
    let (rest, e) = take_eq→append method buf (ground arith) in (rest, ground arith)

Compatible-of_tests :
    (buf method : Bytes) (a b : Bool)
    → ((a && list_eq (take (length method) buf) method) || (b && starts_with buf method)) ≡ true
    → Compatible buf method
Compatible-of_tests buf method a b h =
    elim (Bool-cases (list_eq (take (length method) buf) method)) [
      | inl long ↦ inl (take_eq→append method buf long)
      | inr other ↦ inr (starts_with→append buf method (ground arith))
    ]

fits_method→Compatible :
    (buf method : Bytes) → fits_method buf method ≡ true → Compatible buf method
unfolding fits_method
fits_method→Compatible buf method h =
    Compatible-of_tests buf method (leb (length method) (length buf))
      (ltb (length buf) (length method)) h

take_self : (xs ys : Bytes) → list_eq (take (length xs) (xs ++ ys)) xs ≡ true
take_self xs ys = rw (take-append (length xs) xs ys refl) (list_eq_refl xs)

longer_fits : (method rest : Bytes) → fits_method (method ++ rest) method ≡ true
unfolding fits_method
longer_fits method rest = ground (arith, take_self method rest, length-append method rest)

Compatible→fits_method :
    (buf method : Bytes) → Compatible buf method → fits_method buf method ≡ true
unfolding fits_method
Compatible→fits_method buf method (inl (rest, e)) = rw e (longer_fits method rest)
Compatible→fits_method buf method (inr ([], e)) =
    rw (← (e ∙ append-nil buf)) (rw (append-nil method) at (longer_fits method []))
Compatible→fits_method buf method (inr (x ∷ rest, e)) =
    rw e (ground (arith, starts_with-append buf (x ∷ rest), length-append buf (x ∷ rest)))

any→Any :
    (buf : Bytes) (ms : List Bytes) → any (fits_method buf) ms ≡ true → Any (Compatible buf) ms
any→Any buf [] h = absurd (cc)
any→Any buf (x ∷ ms) h = elim ((||_iff (fits_method buf x) (any (fits_method buf) ms)).0 h) [
  | inl here ↦ inl (fits_method→Compatible buf x here)
  | inr there ↦ inr (any→Any buf ms there)
]

Any→any :
    (buf : Bytes) (ms : List Bytes) → Any (Compatible buf) ms → any (fits_method buf) ms ≡ true
Any→any buf (x ∷ ms) (inl here) = rw (Compatible→fits_method buf x here)
Any→any buf (x ∷ ms) (inr there) =
    (||_iff (fits_method buf x) (any (fits_method buf) ms)).1 (inr (Any→any buf ms there))
Any→any buf [] h = absurd h

-- No method begins with the byte 5.
five_fits_nothing :
    (rest method : Bytes) (x : ℕ) → x ≢ 5 → fits_method (5 ∷ rest) (x ∷ method) ≡ false
unfolding fits_method
five_fits_nothing rest method x h = ground arith

five_not_http : (rest : Bytes) → is_http_method_prefix (5 ∷ rest) ≡ false
unfolding is_http_method_prefix
five_not_http rest = rw (
  five_fits_nothing rest (codes "ET ") b'G' (omega arith),
  five_fits_nothing rest (codes "OST ") b'P' (omega arith),
  five_fits_nothing rest (codes "UT ") b'P' (omega arith),
  five_fits_nothing rest (codes "ELETE ") b'D' (omega arith),
  five_fits_nothing rest (codes "EAD ") b'H' (omega arith),
  five_fits_nothing rest (codes "PTIONS ") b'O' (omega arith),
  five_fits_nothing rest (codes "ATCH ") b'P' (omega arith),
  five_fits_nothing rest (codes "ONNECT ") b'C' (omega arith),
  five_fits_nothing rest (codes "RACE ") b'T' (omega arith),
)

-- A buffer is taken for HTTP exactly if it is not empty and begins with one of the methods, or is
-- itself the beginning of one.
pub detect_protocol-http_iff :
    (buf : Bytes) → (detect_protocol buf ≡ http) ↔ ((buf ≢ []) × Any (Compatible buf) methods)
unfolding detect_protocol is_http_method_prefix
detect_protocol-http_iff [] = (λ h. absurd (cc), λ h. absurd (h.0 refl))
detect_protocol-http_iff (x ∷ rest) = (forth, back)
  where
    forth :
        detect_protocol (x ∷ rest) ≡ http → ((x ∷ rest) ≢ []) × Any (Compatible (x ∷ rest)) methods
    forth h = (λ e. cc, any→Any (x ∷ rest) methods (ground arith))

    back :
        ((x ∷ rest) ≢ []) × Any (Compatible (x ∷ rest)) methods → detect_protocol (x ∷ rest) ≡ http
    back h = ground (arith, Any→any (x ∷ rest) methods h.1, five_not_http rest)

-- A buffer is taken for SOCKS5 exactly if its first byte is 5.
pub detect_protocol-socks5_iff :
    (buf : Bytes) → (detect_protocol buf ≡ socks5) ↔ ((rest : Bytes) × (buf ≡ 0x05 ∷ rest))
unfolding detect_protocol
detect_protocol-socks5_iff [] = (λ h. absurd (cc), λ h. absurd (cc))
detect_protocol-socks5_iff (x ∷ rest) = (λ h. (rest, ground arith), λ h. ground arith)
