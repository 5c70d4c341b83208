-- ===== src/Http/Forwarded.antt =====
-- The headers that proxy_request of src/protocol/http_handler.rs forwards, described without its
-- loop.
use mathlib.Core.List.{append-nil}
use peregrine_proxy.Base.{
  arith, list_eq→eq, ℕ, ◌≡◌, refl, sym, ◌∙◌, true, false, List, [], ◌∷◌, ◌++◌, any, list_eq,
  list_eq_iff, Bool-cases, ◌⊎◌, inl, inr,
}
use peregrine_proxy.Base.Text.{Bytes, codes}
use peregrine_proxy.Upstream.{address_text}
use peregrine_proxy.Http.{
  Header, hop_by_hop, to_lowercase, is_hop_by_hop, copy_headers, named, contains_key,
  forwarded_headers,
}

-- The text is one of these.
abbrev pub OneOf : Bytes → List Bytes → Type 0
OneOf name [] = ⊥
OneOf name (x ∷ xs) = (name ≡ x) ⊎ OneOf name xs

-- The hop-by-hop headers of HTTP/1.1, and those that a proxy and its client exchange, in any case.
abbrev pub IsHop : Bytes → Type 0
IsHop name = OneOf (to_lowercase name) (
    codes "proxy-authorization"
    ∷ codes "proxy-connection"
    ∷ codes "proxy-authenticate"
    ∷ codes "te"
    ∷ codes "trailer"
    ∷ codes "transfer-encoding"
    ∷ codes "upgrade"
    ∷ codes "keep-alive"
    ∷ codes "connection"
    ∷ [])

-- The second list has every header of the first that is not hop-by-hop, unchanged and in order, and
-- no other.
pub data Copies : List Header → List Header → Type 0 where
  done : Copies [] []
  copied :
      (h : Header) {hs cs : List Header} → ¬ IsHop h.name → Copies hs cs → Copies (h ∷ hs) (h ∷ cs)
  left_out : (h : Header) {hs cs : List Header} → IsHop h.name → Copies hs cs → Copies (h ∷ hs) cs

abbrev pub HasHost : List Header → Type 0
HasHost [] = ⊥
HasHost (h ∷ hs) = (to_lowercase h.name ≡ codes "host") ⊎ HasHost hs

any-OneOf : (name : Bytes) (xs : List Bytes) → any (list_eq name) xs ≡ true → OneOf name xs
any-OneOf name [] e = cc
any-OneOf name (x ∷ xs) e = elim (Bool-cases (list_eq name x)) [
  | inl same ↦ inl (list_eq→eq name x same)
  | inr other ↦ inr (any-OneOf name xs (rw other at e))
]

OneOf-any : (name : Bytes) (xs : List Bytes) → OneOf name xs → any (list_eq name) xs ≡ true
OneOf-any name [] h = absurd h
OneOf-any name (x ∷ xs) (inl e) = rw ((list_eq_iff name x).1 e) refl
OneOf-any name (x ∷ xs) (inr h) = ground (arith, OneOf-any name xs h)

contains_key-HasHost : (hs : List Header) → contains_key (codes "host") hs ≡ true → HasHost hs
unfolding contains_key
contains_key-HasHost [] e = cc
contains_key-HasHost (h ∷ hs) e = elim (Bool-cases (named (codes "host") h)) [
  | inl same ↦ inl (list_eq→eq (to_lowercase h.name) (codes "host") same)
  | inr other ↦ inr (contains_key-HasHost hs (rw other at e))
]

HasHost-contains_key : (hs : List Header) → HasHost hs → contains_key (codes "host") hs ≡ true
unfolding contains_key
HasHost-contains_key [] h = absurd h
HasHost-contains_key (h ∷ hs) (inl e) =
    rw ((list_eq_iff (to_lowercase h.name) (codes "host")).1 e) refl
HasHost-contains_key (h ∷ hs) (inr k) = ground (arith, HasHost-contains_key hs k)

different : true ≡ false → ⊥
different e = cc

copy_headers-Copies : (hs : List Header) → Copies hs (copy_headers hs)
unfolding copy_headers is_hop_by_hop
copy_headers-Copies [] = done
copy_headers-Copies (h ∷ hs) = elim (Bool-cases (is_hop_by_hop h.name)) [
  | inl hop ↦
      rw hop (left_out h (any-OneOf (to_lowercase h.name) hop_by_hop hop) (copy_headers-Copies hs))
  | inr other ↦ rw other (
      copied h
        (λ k. absurd (different (sym (OneOf-any (to_lowercase h.name) hop_by_hop k) ∙ other)))
        (copy_headers-Copies hs))
]

-- What is forwarded is every header of the request that is not hop-by-hop, in any case of letters,
-- unchanged and in order, and then, exactly if the request has no Host header, one with the target.
pub forwarded_headers_lem :
    (host : Bytes) (port : ℕ) (hs : List Header)
    → (cs : List Header) × Copies hs cs
      × ((HasHost hs × (forwarded_headers host port hs ≡ cs))
          ⊎ ((¬ HasHost hs)
              × (forwarded_headers host port hs
                  ≡ cs ++ (record { name = codes "host"; value = address_text host port }) ∷ [])))
unfolding forwarded_headers
forwarded_headers_lem host port hs = (
  copy_headers hs,
  copy_headers-Copies hs,
  elim (Bool-cases (contains_key (codes "host") hs)) [
    | inl present ↦ inl (contains_key-HasHost hs present, rw present (append-nil (copy_headers hs)))
    | inr missing ↦
        inr (λ k. absurd (different (sym (HasHost-contains_key hs k) ∙ missing)), rw missing refl)
  ],
)
