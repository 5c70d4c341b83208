-- ===== src/Acl/DomainFilter/Meaning.antt =====
-- A built filter means the disjunction of its patterns, each read on its own.
use peregrine_proxy.Base.{
  ◌≡◌, refl, Bool, true, false, ◌||◌, Option, none, some, List, [], ◌∷◌, any, any-append, list_eq,
  list_eq→eq, drop, if◌then◌else◌, arith, Bool-cases, inl, inr,
}
use peregrine_proxy.Base.Text.{Bytes}
use peregrine_proxy.Acl.Matchers.{
  Matchers, ok, ◌>>=◌, bind-eq-ok, glob_set_failed, regex_set_failed, ok_or,
}
use peregrine_proxy.Acl.DomainFilter.{
  has, insert, is_regex, is_glob, Patterns, DomainFilter, add_glob, add_pattern, add_patterns,
  build_globs, build_regexes, new, matches, globs_hit, regexes_hit,
}

has_again :
    (text x : Bytes) (set : List Bytes)
    → has set text ≡ true
    → has set x ≡ (list_eq text x || has set x)
has_again text x set old = elim (Bool-cases (list_eq text x)) [
  | inl same ↦ rw same (rw (list_eq→eq text x same) at old)
  | inr other ↦ rw other
]

pub has-insert :
    (text : Bytes) (set : List Bytes) (x : Bytes)
    → has (insert text set) x ≡ (list_eq text x || has set x)
has-insert text set x = elim (Bool-cases (has set text)) [
  | inl old ↦ rw old (has_again text x set old)
  | inr fresh ↦ rw fresh
]

module _ (m : Matchers) (domain : Bytes) where
  open m use {
    Glob, GlobSet, RegexSet, glob_new, glob_matches, glob_build, globs_match, globs_match_any,
    regex_matches, regex_build, regexes_match_any,
  }

  abbrev pub glob_hit : Option Glob → Bool
  glob_hit none = false
  glob_hit (some g) = glob_matches g domain

  -- What one pattern of the configuration means.
  abbrev pub pattern_matches : Bytes → Bool
  pattern_matches pattern =
      if is_regex pattern
      then regex_matches (drop 1 pattern) domain
      else if is_glob pattern
      then glob_hit (glob_new pattern)
      else list_eq pattern domain

  -- What the loop has collected so far means.
  abbrev collected : Patterns m → Bool
  collected b =
      has b.exact domain
      || (any (λ g. glob_matches g domain) b.globs || any (λ p. regex_matches p domain) b.regexes)

  add_glob-collected :
      (pattern : Bytes) (b : Patterns m) (o : Option Glob) {b' : Patterns m}
      → add_glob m pattern b o ≡ ok b'
      → collected b' ≡ (collected b || glob_hit o)
  add_glob-collected pattern b none h = absurd (cc)
  add_glob-collected pattern b (some g) h =
      ground (arith, any-append (λ g. glob_matches g domain) b.globs (g ∷ []))

  add_pattern-collected :
      (pattern : Bytes) (b : Patterns m) {b' : Patterns m}
      → add_pattern m pattern b ≡ ok b'
      → collected b' ≡ (collected b || pattern_matches pattern)
  unfolding add_pattern
  add_pattern-collected pattern b {b'} h = ground (
    arith,
    any-append (λ p. regex_matches p domain) b.regexes (drop 1 pattern ∷ []),
    has-insert pattern b.exact domain,
    add_glob-collected pattern b (glob_new pattern) {b' = b'},
  )

  add_patterns-collected :
      (patterns : List Bytes) (b : Patterns m) {b' : Patterns m}
      → add_patterns m patterns b ≡ ok b'
      → collected b' ≡ (collected b || any pattern_matches patterns)
  unfolding add_patterns
  add_patterns-collected [] b h = ground arith
  add_patterns-collected (pattern ∷ patterns) b h =
      let (c, h1, h2) = bind-eq-ok (add_pattern m pattern b) _ h in
      ground (arith, add_pattern-collected pattern b h1, add_patterns-collected patterns c h2)

  built_globs :
      (gs : List Glob) (built : Option GlobSet) {o : Option GlobSet}
      → glob_build gs ≡ built
      → (ok_or built glob_set_failed >>= λ set. ok (some set)) ≡ ok o
      → globs_hit m o domain ≡ any (λ g. glob_matches g domain) gs
  built_globs gs none e h = absurd (cc)
  built_globs gs (some set) {o} e h = ground (arith, globs_match_any gs set domain e)

  build_globs_lem :
      (gs : List Glob) {o : Option GlobSet}
      → build_globs m gs ≡ ok o
      → globs_hit m o domain ≡ any (λ g. glob_matches g domain) gs
  unfolding build_globs
  build_globs_lem [] h = ground arith
  build_globs_lem (g ∷ gs) h = built_globs (g ∷ gs) (glob_build (g ∷ gs)) refl h

  built_regexes :
      (ps : List Bytes) (built : Option RegexSet) {o : Option RegexSet}
      → regex_build ps ≡ built
      → (ok_or built regex_set_failed >>= λ set. ok (some set)) ≡ ok o
      → regexes_hit m o domain ≡ any (λ p. regex_matches p domain) ps
  built_regexes ps none e h = absurd (cc)
  built_regexes ps (some set) {o} e h = ground (arith, regexes_match_any ps set domain e)

  build_regexes_lem :
      (ps : List Bytes) {o : Option RegexSet}
      → build_regexes m ps ≡ ok o
      → regexes_hit m o domain ≡ any (λ p. regex_matches p domain) ps
  unfolding build_regexes
  build_regexes_lem [] h = ground arith
  build_regexes_lem (p ∷ ps) h = built_regexes (p ∷ ps) (regex_build (p ∷ ps)) refl h

  -- A filter that could be built matches a domain exactly if one of its patterns does: a pattern
  -- with ~ in front as a regular expression, one with * or ? as a glob, and any other literally.
  pub new-matches :
      (patterns : List Bytes) (f : DomainFilter m)
      → new m patterns ≡ ok f
      → matches m f domain ≡ any pattern_matches patterns
  unfolding new matches
  new-matches patterns f h =
      let (b, h1, k1) =
        bind-eq-ok (add_patterns m patterns (record { globs = []; regexes = []; exact = [] })) _
          h in
      let (globs, h2, k2) = bind-eq-ok (build_globs m b.globs) _ k1 in
      let (regexes, h3, k3) = bind-eq-ok (build_regexes m b.regexes) _ k2 in
      ground (
        arith,
        add_patterns-collected patterns (record { globs = []; regexes = []; exact = [] }) h1,
        build_globs_lem b.globs h2,
        build_regexes_lem b.regexes h3,
      )
