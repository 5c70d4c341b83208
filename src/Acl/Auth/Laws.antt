-- ===== src/Acl/Auth/Laws.antt =====
-- What src/acl/auth.rs accepts, and the round trip of the Basic scheme.
use mathlib.Core.List.{reverse, reverse-append, reverse-cons, append_assoc}
use peregrine_proxy.Base.{
  ℕ, ◌+◌, true, false, ◌≡◌, refl, sym, ap, ◌∙◌, ◌↔◌, ◌⊎◌, some, List, [], ◌∷◌, ◌++◌, drop,
  take-append, drop-append, length, length-append, ◌<◌, list_eq_iff, contains, All, arith,
}
use peregrine_proxy.Base.Text.{
  Bytes, codes, is_utf8, is_utf8-append, is_utf8_ascii, from_utf8_valid,
}
use peregrine_proxy.Base.Search.{trim, find-first, IsSolid, trim_solid}
use peregrine_proxy.Config.{UserCredential}
use peregrine_proxy.Acl.Auth.{verify_credentials, parse_basic_auth, Base64, split_at_colon}

-- One of the listed users has exactly this name and this password.
abbrev pub IsListed : Bytes → Bytes → List UserCredential → Type 0
IsListed name password [] = ⊥
IsListed name password (u ∷ users) =
    ((u.username ≡ name) × (u.password ≡ password)) ⊎ IsListed name password users

-- Credentials are accepted exactly when a configured user has this name and this password.
pub verify_credentials_iff :
    (name password : Bytes) (users : List UserCredential)
    → (verify_credentials name password users ≡ true) ↔ IsListed name password users
unfolding verify_credentials
verify_credentials_iff name password [] = (λ h. cc, λ h. absurd h)
verify_credentials_iff name password (u ∷ users) = ground (
  arith,
  list_eq_iff u.username name,
  list_eq_iff u.password password,
  verify_credentials_iff name password users,
)

reverse-IsSolid :
    (x : ℕ) (xs : Bytes)
    → All IsSolid (x ∷ xs)
    → (c : ℕ) × (cs : Bytes) × (reverse (x ∷ xs) ≡ c ∷ cs) × IsSolid c
reverse-IsSolid x [] h = (x, [], refl, h.0)
reverse-IsSolid x (y ∷ ys) h =
    let (c, cs, e, k) = reverse-IsSolid y ys h.1 in
    (c, cs ++ x ∷ [], reverse-cons x (y ∷ ys) ∙ ap (λ r. r ++ x ∷ []) e, k)

trim_basic :
    (x : ℕ) (xs : Bytes)
    → All IsSolid (x ∷ xs)
    → trim (codes "Basic " ++ x ∷ xs) ≡ codes "Basic " ++ x ∷ xs
trim_basic x xs h =
    let (c, cs, e, k) = reverse-IsSolid x xs h in
    trim_solid b'B' c (codes "asic " ++ x ∷ xs) (cs ++ reverse (codes "Basic ")) (omega arith) k
      (reverse-append (codes "Basic ") (x ∷ xs) ∙ ap (λ r. r ++ reverse (codes "Basic ")) e)

trim_basic_encoded :
    (e : Bytes) → All IsSolid e → 0 < length e → trim (codes "Basic " ++ e) ≡ codes "Basic " ++ e
trim_basic_encoded [] h k = elim k [ ]
trim_basic_encoded (x ∷ xs) h k = trim_basic x xs h

split_at_colon-first :
    (name password : Bytes)
    → contains name b':' ≡ false
    → split_at_colon (name ++ b':' ∷ password) ≡ some (name, password)
split_at_colon-first name password h = rw (
  find-first b':' name password h,
  take-append (length name) name (b':' ∷ password) refl,
  drop_colon,
)
  where
    drop_colon : drop (length name + 1) (name ++ b':' ∷ password) ≡ password
    drop_colon = rw (sym (append_assoc name (b':' ∷ []) password)) (
        drop-append (length name + 1) (name ++ b':' ∷ []) password
          (omega (arith, length-append name (b':' ∷ []))))

pub is_utf8_credentials :
    (name password : Bytes)
    → is_utf8 name ≡ true
    → is_utf8 password ≡ true
    → is_utf8 (name ++ b':' ∷ password) ≡ true
is_utf8_credentials name password h k =
    is_utf8-append name (b':' ∷ password) h
      (is_utf8-append (b':' ∷ []) password (is_utf8_ascii (b':' ∷ []) (omega arith)) k)

-- A Basic header that encodes a name without a colon and a password is read back as this name and
-- this password, colons in the password included.
pub parse_basic_auth-encode :
    (base64 : Base64) (name password : Bytes)
    → contains name b':' ≡ false
    → is_utf8 name ≡ true
    → is_utf8 password ≡ true
    → parse_basic_auth base64 (codes "Basic " ++ base64.encode (name ++ b':' ∷ password))
      ≡ some (name, password)
unfolding parse_basic_auth
parse_basic_auth-encode base64 name password colon un up =
    rw
      (
        trim_basic_encoded (base64.encode text) (base64.encode_solid text)
            (omega (arith, base64.length-encode text, length-append name (b':' ∷ password))),
        base64.decode-encode text,
        from_utf8_valid text (is_utf8_credentials name password un up),
      )
      (split_at_colon-first name password colon)
  where
    text : Bytes
    text = name ++ b':' ∷ password
