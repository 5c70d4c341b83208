-- ===== src/Base/Text.antt =====
-- Texts. A Rust `str` is the list of its UTF-8 bytes; `codes` gives the bytes of an ASCII literal.
-- `is_utf8` is the test of `String::from_utf8` (core::str::from_utf8), `trim` is `str::trim`.
use Prim.Native.Char.{code}
use Prim.Native.String.{String}
use peregrine_proxy.Base.{
  ℕ, zero, suc, ◌+◌, ◌-◌, ◌<◌, ◌≡◌, refl, Bool, true, false, ◌&&◌, Option, none, some, List, [],
  ◌∷◌, ◌++◌, arith, ltb, leb, ◌==◌, if◌then◌else◌, All,
}

abbrev pub Bytes : Type 0
Bytes = List ℕ

abbrev pub codes : String → Bytes
codes String.[] = []
codes (String.◌∷◌ c s) = code c ∷ codes s

-- What the decoder waits for: `more n lo hi` is n continuation bytes, the first in [lo, hi].
pub data Utf8 : Type 0 where
  start : Utf8
  more : ℕ → ℕ → ℕ → Utf8
  bad : Utf8

-- One byte of well-formed UTF-8, by the ranges of the Unicode standard (no overlong forms, no
-- surrogates, nothing above U+10FFFF).
lead : ℕ → Utf8
lead b =
    if ltb b 0x80
    then start
    else if ltb b 0xc2
    then bad
    else if ltb b 0xe0
    then more 1 0x80 0xbf
    else if b == 0xe0
    then more 2 0xa0 0xbf
    else if b == 0xed
    then more 2 0x80 0x9f
    else if ltb b 0xf0
    then more 2 0x80 0xbf
    else if b == 0xf0
    then more 3 0x90 0xbf
    else if ltb b 0xf4
    then more 3 0x80 0xbf
    else if b == 0xf4
    then more 3 0x80 0x8f
    else bad

follow : ℕ → Utf8
follow zero = start
follow (suc n) = more (suc n) 0x80 0xbf

utf8_step : Utf8 → ℕ → Utf8
unfolding lead follow
utf8_step start b = lead b
utf8_step bad b = bad
utf8_step (more zero lo hi) b = bad
utf8_step (more (suc n) lo hi) b = if leb lo b && leb b hi then follow n else bad

utf8_run : Utf8 → Bytes → Utf8
unfolding utf8_step
utf8_run s [] = s
utf8_run s (b ∷ bs) = utf8_run (utf8_step s b) bs

accepts : Utf8 → Bool
accepts start = true
accepts (more n lo hi) = false
accepts bad = false

unfoldable pub is_utf8 : Bytes → Bool
unfolding utf8_run accepts
is_utf8 bs = accepts (utf8_run start bs)

-- `String::from_utf8`.
unfoldable pub from_utf8 : Bytes → Option Bytes
unfolding is_utf8
from_utf8 bs = if is_utf8 bs then some bs else none

pub from_utf8_valid : (bs : Bytes) → is_utf8 bs ≡ true → from_utf8 bs ≡ some bs
unfolding from_utf8
from_utf8_valid bs h = rw h

pub from_utf8_invalid : (bs : Bytes) → is_utf8 bs ≡ false → from_utf8 bs ≡ none
unfolding from_utf8
from_utf8_invalid bs h = rw h

pub from_utf8-eq-some :
    (bs : Bytes) {text : Bytes} → from_utf8 bs ≡ some text → (text ≡ bs) × (is_utf8 bs ≡ true)
unfolding from_utf8
from_utf8-eq-some bs h = ground arith

utf8_run-append : (s : Utf8) (xs ys : Bytes) → utf8_run s (xs ++ ys) ≡ utf8_run (utf8_run s xs) ys
unfolding utf8_run
utf8_run-append s [] ys = refl
utf8_run-append s (x ∷ xs) ys = utf8_run-append (utf8_step s x) xs ys

accepts→start : (s : Utf8) → accepts s ≡ true → s ≡ start
unfolding accepts
accepts→start start h = refl
accepts→start (more n lo hi) h = cc
accepts→start bad h = cc

-- Valid texts join to a valid text.
pub is_utf8-append :
    (xs ys : Bytes) → is_utf8 xs ≡ true → is_utf8 ys ≡ true → is_utf8 (xs ++ ys) ≡ true
unfolding is_utf8
is_utf8-append xs ys h k = rw (utf8_run-append start xs ys, accepts→start (utf8_run start xs) h) k

-- An ASCII text is valid.
abbrev pub IsAscii : Bytes → Type 0
IsAscii = All (λ b. b < 0x80)

pub is_utf8_ascii : (bs : Bytes) → IsAscii bs → is_utf8 bs ≡ true
unfolding is_utf8
is_utf8_ascii [] h = refl
is_utf8_ascii (b ∷ bs) h = ground (arith, is_utf8_ascii bs h.1)

-- ASCII case mapping of one byte, as `to_ascii_lowercase` and `to_ascii_uppercase` have it.
unfoldable pub lower : ℕ → ℕ
lower b = if leb b'A' b && leb b b'Z' then b + 32 else b

unfoldable pub upper : ℕ → ℕ
upper b = if leb b'a' b && leb b b'z' then b - 32 else b
