-- ===== src/Base/Word.antt =====
-- Bytes and 16-bit words: `as u8`, `u16::to_be_bytes` and `u16::from_be_bytes`.
use peregrine_proxy.Base.{ℕ, ◌+◌, ◌*◌, ◌/◌, ◌%◌, ◌<◌, ◌≡◌, refl, List, [], ◌∷◌, arith, length}

-- `n as u8`.
unfoldable pub to_u8 : ℕ → ℕ
to_u8 n = n % 256

unfoldable pub to_be_bytes : ℕ → List ℕ
to_be_bytes n = n / 256 % 256 ∷ n % 256 ∷ []

unfoldable pub from_be_bytes : ℕ → ℕ → ℕ
from_be_bytes hi lo = hi * 256 + lo

pub from_be_bytes_lem : (n : ℕ) → n < 65536 → from_be_bytes (n / 256 % 256) (n % 256) ≡ n
unfolding from_be_bytes
from_be_bytes_lem n h = omega arith

pub length-to_be_bytes : (n : ℕ) → length (to_be_bytes n) ≡ 2
unfolding to_be_bytes
length-to_be_bytes n = refl

pub to_u8_small : (n : ℕ) → n < 256 → to_u8 n ≡ n
unfolding to_u8
to_u8_small n h = omega arith
