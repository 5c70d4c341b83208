-- ===== src/Base/Decimal/Short.antt =====
-- The decimal text of numbers of at most three digits.
use peregrine_proxy.Base.{
  ℕ, zero, suc, ◌+◌, ◌/◌, ◌%◌, ◌≤◌, ◌<◌, ◌≡◌, ap, sym, ◌∙◌, [], ◌∷◌, ◌++◌, arith,
}
use peregrine_proxy.Base.Text.{Bytes}
use peregrine_proxy.Base.Decimal.{decimal, digits_of}

digits_of-small : (f n : ℕ) → n < 10 → digits_of (suc f) n ≡ (48 + n) ∷ []
unfolding digits_of
digits_of-small f n h = ground arith

digits_of-large :
    (f n : ℕ) → 10 ≤ n → digits_of (suc f) n ≡ digits_of f (n / 10) ++ (48 + n % 10) ∷ []
unfolding digits_of
digits_of-large f n h = ground arith

from_suc : (f n : ℕ) (bs : Bytes) → f ≡ n + 1 → digits_of f n ≡ bs → decimal n ≡ bs
unfolding decimal
from_suc f n bs e h = ap (λ k. digits_of k n) (sym e) ∙ h

pub decimal-one : (n : ℕ) → n < 10 → decimal n ≡ (48 + n) ∷ []
decimal-one n h = from_suc (suc n) n _ (omega arith) (digits_of-small n n h)

pub decimal-two : (n : ℕ) → 10 ≤ n → n < 100 → decimal n ≡ (48 + n / 10) ∷ (48 + n % 10) ∷ []
decimal-two zero l h = absurd (omega arith)
decimal-two (suc m) l h = from_suc (suc (suc m)) (suc m) _ (omega arith) (
    digits_of-large (suc m) (suc m) l
    ∙ ap (λ ds. ds ++ (48 + suc m % 10) ∷ []) (digits_of-small m (suc m / 10) (omega arith)))

pub decimal-three :
    (n : ℕ)
    → 100 ≤ n
    → n < 1000
    → decimal n ≡ (48 + n / 10 / 10) ∷ (48 + n / 10 % 10) ∷ (48 + n % 10) ∷ []
decimal-three zero l h = absurd (omega arith)
decimal-three (suc zero) l h = absurd (omega arith)
decimal-three (suc (suc m)) l h =
    let n = suc (suc m) in
    from_suc (suc n) n _ (omega arith) (
      digits_of-large n n (omega arith)
      ∙ ap (λ ds. ds ++ (48 + n % 10) ∷ [])
          (digits_of-large (suc m) (n / 10) (omega arith)
            ∙ ap (λ ds. ds ++ (48 + n / 10 % 10) ∷ [])
                (digits_of-small m (n / 10 / 10) (omega arith))))
