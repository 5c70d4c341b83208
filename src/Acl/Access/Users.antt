-- ===== src/Acl/Access/Users.antt =====
-- `get_auth_users_for_rule` beside `check_request`.
use peregrine_proxy.Base.{◌≡◌, true, false, Option, none, some, List, [], ◌∷◌, All, arith}
use peregrine_proxy.Base.Text.{Bytes}
use peregrine_proxy.Config.{UserCredential}
use peregrine_proxy.Acl.Matchers.{Matchers, IpAddr}
use peregrine_proxy.Acl.Access.{
  AclAction, AclRule, AccessController, authenticate, is_authenticate, matches_method, rule_matches,
  rule_matches_full, first_action, first_users, check_request, get_auth_users_for_rule,
}

module _ (m : Matchers) (src_ip : IpAddr) (dst_domain method : Option Bytes) where
  abbrev pub NoMethods : AclRule m → Type 0
  NoMethods rule = rule.http_methods ≡ none

  same_match :
      (rule : AclRule m)
      → NoMethods rule
      → rule_matches m rule src_ip dst_domain ≡ rule_matches_full m rule src_ip dst_domain method
  unfolding rule_matches rule_matches_full
  same_match rule e = ground arith

  first_users-authenticate :
      (default : AclAction) (rules : List (AclRule m)) {users : List UserCredential}
      → All NoMethods rules
      → first_users m default rules src_ip dst_domain ≡ some users
      → first_action m default rules src_ip dst_domain method ≡ authenticate
  unfolding first_users first_action
  first_users-authenticate default [] all h = ground arith
  first_users-authenticate default (rule ∷ rules) {users} all h =
      ground
        (arith, same_match rule all.0, first_users-authenticate default rules {users = users} all.1)

  -- As long as no rule filters by method, users are looked up only for requests whose action is to
  -- authenticate.
  pub get_auth_users-authenticate :
      (c : AccessController m) {users : List UserCredential}
      → All NoMethods c.rules
      → get_auth_users_for_rule m c src_ip dst_domain ≡ some users
      → check_request m c src_ip dst_domain method ≡ authenticate
  unfolding get_auth_users_for_rule check_request
  get_auth_users-authenticate c all h = first_users-authenticate c.default_action c.rules all h

  -- The user lookup passes over the method: where the first rule is for other methods and does
  -- not authenticate, a request that the later rules ask to authenticate finds no users.
  pub get_auth_users_miss :
      (c : AccessController m) (rule : AclRule m) (rules : List (AclRule m))
      → c.rules ≡ rule ∷ rules
      → rule_matches m rule src_ip dst_domain ≡ true
      → matches_method m rule.http_methods method ≡ false
      → is_authenticate rule.action ≡ false
      → first_action m c.default_action rules src_ip dst_domain method ≡ authenticate
      → (check_request m c src_ip dst_domain method ≡ authenticate)
        × (get_auth_users_for_rule m c src_ip dst_domain ≡ none)
  unfolding get_auth_users_for_rule check_request first_users first_action rule_matches
      rule_matches_full
  get_auth_users_miss c rule rules e hit other plain later = ground arith
