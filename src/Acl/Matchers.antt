-- ===== src/Acl/Matchers.antt =====
-- What access control takes from elsewhere: the globset, regex and ipnet crates and the Unicode
-- case mapping of `str::to_uppercase`. A built set matches a text exactly if one of its patterns
-- does, which is what globset and regex document of `GlobSet::is_match` and `RegexSet::is_match`.
use peregrine_proxy.Base.{◌≡◌, refl, Bool, Option, some, List, any}
use peregrine_proxy.Base.Text.{Bytes}

-- `std::net::IpAddr` by its octets.
pub data IpAddr : Type 0 where
  v4 v6 : Bytes → IpAddr

pub record Matchers : Type 1 where
  pub Glob : Type 0
  pub GlobSet : Type 0
  pub RegexSet : Type 0
  pub IpNet : Type 0
  pub glob_new : Bytes → Option Glob
  pub glob_matches : Glob → Bytes → Bool
  pub glob_build : List Glob → Option GlobSet
  pub globs_match : GlobSet → Bytes → Bool
  pub globs_match_any :
      (gs : List Glob) (set : GlobSet) (text : Bytes)
      → glob_build gs ≡ some set
      → globs_match set text ≡ any (λ g. glob_matches g text) gs
  pub regex_matches : Bytes → Bytes → Bool
  pub regex_build : List Bytes → Option RegexSet
  pub regexes_match : RegexSet → Bytes → Bool
  pub regexes_match_any :
      (ps : List Bytes) (set : RegexSet) (text : Bytes)
      → regex_build ps ≡ some set
      → regexes_match set text ≡ any (λ p. regex_matches p text) ps
  pub parse_net : Bytes → Option IpNet
  pub net_contains : IpNet → IpAddr → Bool
  pub to_uppercase : Bytes → Bytes

-- The `anyhow` errors of building a controller.
pub data ConfigError : Type 0 where
  invalid_glob invalid_cidr : Bytes → ConfigError
  glob_set_failed regex_set_failed : ConfigError

pub data Checked {ℓ} (A : Type ℓ) : Type ℓ where
  ok : A → Checked A
  err : ConfigError → Checked A

infixl 5 ◌>>=◌
abbrev pub ◌>>=◌ {ℓ κ} : {A : Type ℓ} {B : Type κ} → Checked A → (A → Checked B) → Checked B
ok a >>= f = f a
err e >>= f = err e

abbrev pub ok_or {ℓ} : {A : Type ℓ} → Option A → ConfigError → Checked A
ok_or Option.none e = err e
ok_or (some a) e = ok a

-- A bind that succeeds has run both parts.
pub bind-eq-ok {ℓ κ} :
    {A : Type ℓ} {B : Type κ} (m : Checked A) (f : A → Checked B) {b : B}
    → (m >>= f) ≡ ok b
    → (a : A) × (m ≡ ok a) × (f a ≡ ok b)
bind-eq-ok (ok a) f h = (a, refl, h)
bind-eq-ok (err e) f h = absurd (cc)
