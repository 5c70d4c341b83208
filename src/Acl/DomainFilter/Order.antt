-- ===== src/Acl/DomainFilter/Order.antt =====
-- A filter as the set of its patterns: neither their order nor their repetition matters.
use mathlib.Core.Quot
use mathlib.Core.Quot.{Quot}
use peregrine_proxy.Base.{
  ◌≡◌, sym, ap, ◌∙◌, Bool, true, List, [], ◌∷◌, any, list_eq, list_eq→eq, list_eq_refl, arith,
  Bool-cases, inl, inr,
}
use peregrine_proxy.Base.Text.{Bytes}
use peregrine_proxy.Acl.Matchers.{Matchers, ok}
use peregrine_proxy.Acl.DomainFilter.{has, DomainFilter, new, matches}
use peregrine_proxy.Acl.DomainFilter.Meaning.{pattern_matches, new-matches}

abbrev pub SamePatterns : List Bytes → List Bytes → Type 0
SamePatterns ps qs = (x : Bytes) → has ps x ≡ has qs x

abbrev pub PatternSet : Type 0
PatternSet = Quot SamePatterns

module _ (f : Bytes → Bool) where
  any→has : (ps : List Bytes) → any f ps ≡ true → (x : Bytes) × (has ps x ≡ true) × (f x ≡ true)
  any→has [] h = absurd (cc)
  any→has (p ∷ ps) h = elim (Bool-cases (f p)) [
    | inl hit ↦ (p, ground (arith, list_eq_refl p), hit)
    | inr miss ↦ let (x, held, hit) = any→has ps (rw miss at h) in (x, ground (arith, held), hit)
  ]

  has→any : (ps : List Bytes) (x : Bytes) → has ps x ≡ true → f x ≡ true → any f ps ≡ true
  has→any [] x h k = cc
  has→any (p ∷ ps) x h k = elim (Bool-cases (list_eq p x)) [
    | inl same ↦ rw (list_eq→eq p x same) (ground (arith, k))
    | inr other ↦ ground (arith, has→any ps x (rw other at h) k)
  ]

  any-SamePatterns : (ps qs : List Bytes) → SamePatterns ps qs → any f ps ≡ any f qs
  any-SamePatterns ps qs same = elim (Bool-cases (any f ps)) [
    | inl hit ↦
        let (x, held, k) = any→has ps hit in hit ∙ sym (has→any qs x (sym (same x) ∙ held) k)
    | inr miss ↦ elim (Bool-cases (any f qs)) [
      | inl hit ↦ let (x, held, k) = any→has qs hit in has→any ps x (same x ∙ held) k ∙ sym hit
      | inr none ↦ miss ∙ sym none
    ]
  ]

module _ (m : Matchers) (domain : Bytes) where
  -- Whether a set of patterns covers the domain.
  covers : PatternSet → Bool
  covers =
      Quot.lift (hlevel) (any (pattern_matches m domain))
        (any-SamePatterns (pattern_matches m domain))

  matches-covers :
      (patterns : List Bytes) (f : DomainFilter m)
      → new m patterns ≡ ok f
      → matches m f domain ≡ covers (Quot.mk patterns)
  unfolding covers
  matches-covers patterns f h = new-matches m domain patterns f h

  -- Two filters of the same set of patterns, in any order and with any repetition, match the same
  -- domains.
  pub new-matches_same :
      (ps qs : List Bytes) (f g : DomainFilter m)
      → new m ps ≡ ok f
      → new m qs ≡ ok g
      → ◌≡◌ {A = PatternSet} (Quot.mk ps) (Quot.mk qs)
      → matches m f domain ≡ matches m g domain
  new-matches_same ps qs f g h k same =
      matches-covers ps f h ∙ ap covers same ∙ sym (matches-covers qs g k)
