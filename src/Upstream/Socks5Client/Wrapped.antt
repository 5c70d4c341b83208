-- ===== src/Upstream/Socks5Client/Wrapped.antt =====
-- What the length byte of a long user name makes of the login of src/upstream/socks5_proxy.rs.
use mathlib.Core.List.{append_assoc}
use peregrine_proxy.Base.{
  ℕ, zero, suc, ◌%◌, ◌≤◌, ◌≡◌, get_or, refl, sym, ap, ◌∙◌, [], ◌∷◌, ◌++◌, length, take, drop,
  take-append, arith,
}
use peregrine_proxy.Base.Text.{Bytes}
use peregrine_proxy.Base.Word.{to_u8}
use peregrine_proxy.Config.{UserCredential}
use peregrine_proxy.Socks5.Session.{login_then}
use peregrine_proxy.Upstream.Socks5Client.{login_request}

take_within : (n : ℕ) (xs ys : Bytes) → n ≤ length xs → take n (xs ++ ys) ≡ take n xs
take_within zero xs ys h = refl
take_within (suc n) [] ys h = absurd (omega arith)
take_within (suc n) (x ∷ xs) ys h = ap (◌∷◌ x) (take_within n xs ys (omega arith))

-- The user name in a login that a server reads from what the client writes, whatever follows it:
-- its length is that of the configured name modulo 256, and it is that many of its first bytes. So
-- a name of 256 bytes or more is never read whole.
pub login_request-login_then :
    (auth : UserCredential) (name password rest rest' : Bytes)
    → login_request auth ++ rest ≡ login_then name password rest'
    → (length name ≡ length auth.username % 256)
      × (name ≡ take (length auth.username % 256) auth.username)
unfolding to_u8
login_request-login_then auth name password rest rest' e = (sym short, first)
  where
    short : length auth.username % 256 ≡ length name
    short = ap (λ bs. get_or bs 1 0) e

    sent : Bytes
    sent = (length auth.password % 256) ∷ auth.password

    behind : Bytes
    behind = length password ∷ (password ++ rest')

    same : auth.username ++ (sent ++ rest) ≡ name ++ behind
    same = sym (append_assoc auth.username sent rest) ∙ ap (λ bs. drop 2 bs) e

    first : name ≡ take (length auth.username % 256) auth.username
    first =
        sym (take-append (length auth.username % 256) name behind (sym short))
        ∙ ap (take (length auth.username % 256)) (sym same)
        ∙ take_within (length auth.username % 256) auth.username (sent ++ rest) (omega arith)
