-- ===== src/Acl/DomainFilter.antt =====
-- src/acl/domain_filter.rs. A `HashSet` of texts is a list without duplicates.
pub mod Meaning
pub mod Order
use peregrine_proxy.Base.{
  ℕ, ◌≡◌, Bool, true, false, ◌&&◌, ◌||◌, Option, none, some, List, [], ◌∷◌, ◌++◌, any, list_eq,
  starts_with, contains, drop, if◌then◌else◌,
}
use peregrine_proxy.Base.Text.{Bytes}
use peregrine_proxy.Acl.Matchers.{
  Matchers, Checked, ok, err, invalid_glob, glob_set_failed, regex_set_failed, ◌>>=◌, ok_or,
}

-- `HashSet::contains` and `HashSet::insert`.
abbrev pub has : List Bytes → Bytes → Bool
has set text = any (λ x. list_eq x text) set

abbrev pub insert : Bytes → List Bytes → List Bytes
insert text set = if has set text then set else text ∷ set

abbrev pub no_text : List Bytes → Bool
no_text [] = true
no_text (x ∷ xs) = false

abbrev pub is_none {ℓ} : {A : Type ℓ} → Option A → Bool
is_none none = true
is_none (some a) = false

-- The three kinds of a pattern.
abbrev pub is_regex : Bytes → Bool
is_regex pattern = starts_with (b'~' ∷ []) pattern

abbrev pub is_glob : Bytes → Bool
is_glob pattern = contains pattern b'*' || contains pattern b'?'

module _ (m : Matchers) where
  open m use {
    Glob, GlobSet, RegexSet, glob_new, glob_build, globs_match, regex_build, regexes_match,
  }

  -- The local variables of `DomainFilter::new`; `has_globs` says that `globs` is not empty.
  pub record Patterns : Type 0 where
    pub globs : List Glob
    pub regexes : List Bytes
    pub exact : List Bytes

  pub record DomainFilter : Type 0 where
    pub glob_set : Option GlobSet
    pub regex_set : Option RegexSet
    pub exact_matches : List Bytes

  abbrev pub add_glob : Bytes → Patterns → Option Glob → Checked Patterns
  add_glob pattern b none = err (invalid_glob pattern)
  add_glob pattern b (some glob) = ok (record b { globs = b.globs ++ glob ∷ [] })

  -- The body of the loop over the patterns.
  unfoldable pub add_pattern : Bytes → Patterns → Checked Patterns
  add_pattern pattern b =
      if is_regex pattern
      then ok (record b { regexes = b.regexes ++ drop 1 pattern ∷ [] })
      else if is_glob pattern
      then add_glob pattern b (glob_new pattern)
      else ok (record b { exact = insert pattern b.exact })

  unfoldable pub add_patterns : List Bytes → Patterns → Checked Patterns
  add_patterns [] b = ok b
  add_patterns (pattern ∷ patterns) b = do b' ← add_pattern pattern b; add_patterns patterns b'

  unfoldable pub build_globs : List Glob → Checked (Option GlobSet)
  build_globs [] = ok none
  build_globs (g ∷ gs) = do set ← ok_or (glob_build (g ∷ gs)) glob_set_failed; ok (some set)

  unfoldable pub build_regexes : List Bytes → Checked (Option RegexSet)
  build_regexes [] = ok none
  build_regexes (p ∷ ps) = do set ← ok_or (regex_build (p ∷ ps)) regex_set_failed; ok (some set)

  -- `DomainFilter::new`.
  unfoldable pub new : List Bytes → Checked DomainFilter
  new patterns = do
    b ← add_patterns patterns (record { globs = []; regexes = []; exact = [] })
    globs ← build_globs b.globs
    regexes ← build_regexes b.regexes
    ok (record { glob_set = globs; regex_set = regexes; exact_matches = b.exact })

  abbrev pub globs_hit : Option GlobSet → Bytes → Bool
  globs_hit none domain = false
  globs_hit (some set) domain = globs_match set domain

  abbrev pub regexes_hit : Option RegexSet → Bytes → Bool
  regexes_hit none domain = false
  regexes_hit (some set) domain = regexes_match set domain

  unfoldable pub matches : DomainFilter → Bytes → Bool
  matches f domain =
      if has f.exact_matches domain
      then true
      else if globs_hit f.glob_set domain
      then true
      else if regexes_hit f.regex_set domain
      then true
      else false

  unfoldable pub is_empty : DomainFilter → Bool
  is_empty f = no_text f.exact_matches && (is_none f.glob_set && is_none f.regex_set)
