-- ===== src/Acl/Auth.antt =====
-- src/acl/auth.rs: credentials and the Basic scheme. The base64 crate is the parameter `Base64`.
pub mod Laws
use peregrine_proxy.Base.{
  ℕ, ◌+◌, Bool, ◌&&◌, ◌≡◌, Option, none, some, List, take, drop, any, list_eq, not, length, ◌≤◌,
  if◌then◌else◌, starts_with,
}
use peregrine_proxy.Base.Text.{Bytes, codes, from_utf8}
use peregrine_proxy.Base.Search.{trim, find, IsSolid}
use peregrine_proxy.Base.{All}
use peregrine_proxy.Config.{UserCredential}

abbrev pub credential_matches : Bytes → Bytes → UserCredential → Bool
credential_matches username password u = list_eq u.username username && list_eq u.password password

unfoldable pub verify_credentials : Bytes → Bytes → List UserCredential → Bool
verify_credentials username password users = any (credential_matches username password) users

-- `base64::engine::general_purpose::STANDARD`: decoding undoes encoding, and an encoded text is
-- made of printable ASCII characters, no
-- fewer than the bytes that it stands for.
pub record Base64 : Type 0 where
  pub encode : Bytes → Bytes
  pub decode : Bytes → Option Bytes
  pub decode-encode : (b : Bytes) → decode (encode b) ≡ some b
  pub encode_solid : (b : Bytes) → All IsSolid (encode b)
  pub length-encode : (b : Bytes) → length b ≤ length (encode b)

infixl 5 ◌>>=◌
abbrev pub ◌>>=◌ {ℓ κ} : {A : Type ℓ} {B : Type κ} → Option A → (A → Option B) → Option B
none >>= f = none
some a >>= f = f a

-- `decoded_str[..colon_pos]` and what follows the colon.
abbrev pub split_at_colon : Bytes → Option (Bytes × Bytes)
split_at_colon text = do
  colon_pos ← find b':' text
  some (take colon_pos text, drop (colon_pos + 1) text)

unfoldable pub parse_basic_auth : Base64 → Bytes → Option (Bytes × Bytes)
parse_basic_auth base64 header =
    let value = trim header in
    let credentials = (do
      decoded ← base64.decode (drop 6 value)
      text ← from_utf8 decoded
      split_at_colon text) in
    if starts_with (codes "Basic ") value then credentials else none
