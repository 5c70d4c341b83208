-- ===== src/Base/Search.antt =====
-- `str::find`, `str::rfind` of one ASCII character, and `str::trim`.
use mathlib.Core.List.{reverse, reverse-reverse}
use peregrine_proxy.Base.{
  ℕ, zero, suc, ◌<◌, ◌≡◌, refl, Bool, false, ◌&&◌, ◌||◌, Option, none, some, [], ◌∷◌, ◌++◌, arith,
  leb, ◌==◌, if◌then◌else◌, length, get_or, drop, contains, ap, sym, ◌∙◌,
}
use peregrine_proxy.Base.Text.{Bytes}

shift : Option ℕ → Option ℕ
shift none = none
shift (some n) = some (suc n)

unfoldable pub find : ℕ → Bytes → Option ℕ
unfolding shift
find c [] = none
find c (b ∷ bs) = if b == c then some 0 else shift (find c bs)

or_here : Bool → Option ℕ → Option ℕ
or_here here (some n) = some (suc n)
or_here here none = if here then some 0 else none

unfoldable pub rfind : ℕ → Bytes → Option ℕ
unfolding or_here
rfind c [] = none
rfind c (b ∷ bs) = or_here (b == c) (rfind c bs)

pub find-first :
    (c : ℕ) (before after : Bytes)
    → contains before c ≡ false
    → find c (before ++ c ∷ after) ≡ some (length before)
unfolding find
find-first c [] after h = ground arith
find-first c (b ∷ before) after h = ground (arith, find-first c before after)

pub rfind-none : (c : ℕ) (bs : Bytes) → contains bs c ≡ false → rfind c bs ≡ none
unfolding rfind
rfind-none c [] h = refl
rfind-none c (b ∷ bs) h = ground (arith, rfind-none c bs)

pub find-none : (c : ℕ) (bs : Bytes) → contains bs c ≡ false → find c bs ≡ none
unfolding find
find-none c [] h = refl
find-none c (b ∷ bs) h = ground (arith, find-none c bs)

pub rfind-last :
    (c : ℕ) (before after : Bytes)
    → contains after c ≡ false
    → rfind c (before ++ c ∷ after) ≡ some (length before)
unfolding rfind
rfind-last c [] after h = ground (arith, rfind-none c after)
rfind-last c (b ∷ before) after h = ground (arith, rfind-last c before after)

abbrev is_blank : ℕ → Bool
is_blank a = (leb 9 a && leb a 13) || (a == 32)

-- The three-byte characters with the property White_Space.
is_wide_blank : ℕ → ℕ → ℕ → Bool
is_wide_blank a b c =
    ((a == 0xe1) && ((b == 0x9a) && (c == 0x80)))
    || (((a == 0xe2)
          && ((b == 0x80)
              && ((leb 0x80 c && leb c 0x8a) || ((c == 0xa8) || ((c == 0xa9) || (c == 0xaf))))))
        || (((a == 0xe2) && ((b == 0x81) && (c == 0x9f)))
            || ((a == 0xe3) && ((b == 0x80) && (c == 0x80)))))

-- How many bytes the white-space character at the front takes, and the one at the end (the text
-- reversed); 0 if there is none.
front_blank : Bytes → ℕ
unfolding is_wide_blank
front_blank bs =
    let a = get_or bs 0 0 in
    let b = get_or bs 1 0 in
    let c = get_or bs 2 0 in
    if is_blank a
    then 1
    else if (a == 0xc2) && ((b == 0x85) || (b == 0xa0))
    then 2
    else if is_wide_blank a b c
    then 3
    else 0

back_blank : Bytes → ℕ
unfolding is_wide_blank
back_blank bs =
    let a = get_or bs 0 0 in
    let b = get_or bs 1 0 in
    let c = get_or bs 2 0 in
    if is_blank a
    then 1
    else if (b == 0xc2) && ((a == 0x85) || (a == 0xa0))
    then 2
    else if is_wide_blank c b a
    then 3
    else 0

-- Each round drops at least one byte, so the length of the text is enough fuel.
strip : (Bytes → ℕ) → ℕ → Bytes → Bytes
strip blank zero bs = bs
strip blank (suc f) bs =
    let rest = strip blank f (drop (blank bs) bs) in if blank bs == 0 then bs else rest

unfoldable pub trim : Bytes → Bytes
unfolding strip front_blank back_blank
trim bs =
    let front = strip front_blank (length bs) bs in
    reverse (strip back_blank (length front) (reverse front))

strip_nothing : (blank : Bytes → ℕ) (f : ℕ) (bs : Bytes) → blank bs ≡ 0 → strip blank f bs ≡ bs
unfolding strip
strip_nothing blank zero bs h = refl
strip_nothing blank (suc f) bs h = rw h

-- A byte that is ASCII and no white space.
abbrev pub IsSolid : ℕ → Type 0
IsSolid b = (32 < b) × (b < 127)

front_blank_solid : (b : ℕ) (bs : Bytes) → IsSolid b → front_blank (b ∷ bs) ≡ 0
unfolding front_blank
front_blank_solid b bs h = ground arith

back_blank_solid : (b : ℕ) (bs : Bytes) → IsSolid b → back_blank (b ∷ bs) ≡ 0
unfolding back_blank
back_blank_solid b bs h = ground arith

-- A text that begins and ends with a solid byte is left as it is.
pub trim_solid :
    (b c : ℕ) (bs cs : Bytes)
    → IsSolid b
    → IsSolid c
    → reverse (b ∷ bs) ≡ c ∷ cs
    → trim (b ∷ bs) ≡ b ∷ bs
unfolding trim
trim_solid b c bs cs hb hc e =
    rw
      (
        strip_nothing front_blank (length (b ∷ bs)) (b ∷ bs) (front_blank_solid b bs hb),
        e,
        strip_nothing back_blank (length (b ∷ bs)) (c ∷ cs) (back_blank_solid c cs hc),
      )
      (ap reverse (sym e) ∙ reverse-reverse (b ∷ bs))
