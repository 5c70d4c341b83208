-- ===== src/Tests/Acl.antt =====
-- Access control at a small configuration.
use mathlib.Core.Quot
use peregrine_proxy.Base.{arith, ◌≡◌, ℕ, Bool, list_eq, refl, true, none, some, List, [], ◌∷◌}
use peregrine_proxy.Base.Decimal.{decimal}
use peregrine_proxy.Base.Text.{Bytes, codes}
use peregrine_proxy.Config.{AclRuleConfig, AccessControlConfig, AclActionConfig}
use peregrine_proxy.Acl.Matchers.{ok}
use peregrine_proxy.Acl.DomainFilter.{
  DomainFilter, new, matches, add_pattern, add_patterns, build_globs, build_regexes,
}
use peregrine_proxy.Acl.DomainFilter.Meaning.{new-matches}
use peregrine_proxy.Acl.DomainFilter.Order.{PatternSet, new-matches_same}
use peregrine_proxy.Acl.Access.{
  AclRule, AccessController, allow, deny, from_config, compile_rules, compile_rule, compile_src_ip,
  compile_domains, parse_nets, insert_methods, check_request,
}
use peregrine_proxy.Acl.Access.Meaning.{from_config-check_request}
use peregrine_proxy.Tests.Sample.{literal, localhost}

abbrev blocked : List Bytes
blocked = codes "ads.example" ∷ codes "*.tracker" ∷ codes "~spam" ∷ []

abbrev blocked_filter : DomainFilter literal
blocked_filter = record {
  glob_set = some (codes "*.tracker" ∷ []);
  regex_set = some (codes "spam" ∷ []);
  exact_matches = codes "ads.example" ∷ [];
}

blocked-new : new literal blocked ≡ ok blocked_filter
unfolding new add_patterns add_pattern build_globs build_regexes
blocked-new = refl

new-matches_example : matches literal blocked_filter (codes "spam") ≡ true
new-matches_example = new-matches literal (codes "spam") blocked blocked_filter blocked-new

-- The same patterns in another order, one of them twice.
abbrev shuffled : List Bytes
shuffled = codes "~spam" ∷ codes "ads.example" ∷ codes "*.tracker" ∷ codes "ads.example" ∷ []

shuffled-new : new literal shuffled ≡ ok blocked_filter
unfolding new add_patterns add_pattern build_globs build_regexes
shuffled-new = refl

same_patterns : ◌≡◌ {A = PatternSet} (Quot.mk blocked) (Quot.mk shuffled)
same_patterns = Quot.sound (λ x. ground arith)

new-matches_same_example :
    matches literal blocked_filter (codes "spam") ≡ matches literal blocked_filter (codes "spam")
new-matches_same_example =
    new-matches_same literal (codes "spam") blocked shuffled blocked_filter blocked_filter
      blocked-new shuffled-new same_patterns

abbrev block_rule : AclRuleConfig
block_rule = record {
  action = AclActionConfig.deny;
  src_ip = some ((127 ∷ []) ∷ []);
  dst_domain = some blocked;
  dst_port = some (codes "25" ∷ []);
  http_method = some (codes "GET" ∷ []);
  auth = none;
}

abbrev policy : AccessControlConfig
policy = record { default_action = AclActionConfig.allow; rules = block_rule ∷ [] }

abbrev deny_rule : AclRule literal
deny_rule = record {
  action = deny;
  src_ip = some ((127 ∷ []) ∷ []);
  dst_domain = some blocked_filter;
  http_methods = some (codes "GET" ∷ []);
  auth_users = none;
}

abbrev controller : AccessController literal
controller = record { default_action = allow; rules = deny_rule ∷ [] }

policy_compiled : from_config literal policy ≡ ok controller
unfolding from_config compile_rules compile_rule compile_src_ip compile_domains parse_nets
    insert_methods new add_patterns add_pattern build_globs build_regexes
policy_compiled = refl

-- A text names the port that it is in decimal.
abbrev by_number : Bytes → ℕ → Bool
by_number text port = list_eq text (decimal port)

-- The rule is for port 25, the request for port 80.
from_config-check_request_example :
    check_request literal controller localhost (some (codes "spam")) (some (codes "GET")) ≡ deny
from_config-check_request_example =
    from_config-check_request literal by_number localhost 80 (some (codes "spam"))
      (some (codes "GET")) policy controller policy_compiled
