-- ===== src/Acl/Access.antt =====
-- src/acl/mod.rs, src/acl/rule.rs and src/acl/ip_filter.rs: the rules and their evaluation.
pub mod Order
pub mod Meaning
pub mod Users
use peregrine_proxy.Base.{
  ℕ, ◌≡◌, Bool, true, false, ◌&&◌, not, Option, none, some, List, [], ◌∷◌, ◌++◌, any, list_eq,
  if◌then◌else◌,
}
use peregrine_proxy.Base.Text.{Bytes, codes}
use peregrine_proxy.Config.{
  AclActionConfig, UserCredential, AuthConfig, AclRuleConfig, AccessControlConfig,
}
use peregrine_proxy.Acl.Matchers.{Matchers, IpAddr, Checked, ok, err, invalid_cidr, ◌>>=◌, ok_or}
use peregrine_proxy.Acl.DomainFilter.{DomainFilter, new, matches, has, insert}

pub data AclAction : Type 0 where
  allow deny authenticate : AclAction

abbrev pub is_authenticate : AclAction → Bool
is_authenticate allow = false
is_authenticate deny = false
is_authenticate authenticate = true

-- The two `match` blocks that translate an action of the configuration.
abbrev pub action_of : AclActionConfig → AclAction
action_of AclActionConfig.allow = allow
action_of AclActionConfig.deny = deny
action_of AclActionConfig.authenticate = authenticate

-- The users of a rule: only the scheme `basic` has any.
abbrev pub auth_users_of : Option AuthConfig → Option (List UserCredential)
auth_users_of none = none
auth_users_of (some auth) = if list_eq auth.auth_type (codes "basic") then auth.users else none

module _ (m : Matchers) where
  open m use {IpNet, parse_net, net_contains, to_uppercase}

  pub record AclRule : Type 0 where
    pub action : AclAction
    pub src_ip : Option (List IpNet)
    pub dst_domain : Option (DomainFilter m)
    pub http_methods : Option (List Bytes)
    pub auth_users : Option (List UserCredential)

  pub record AccessController : Type 0 where
    pub default_action : AclAction
    pub rules : List AclRule

  unfoldable pub parse_nets : List Bytes → Checked (List IpNet)
  parse_nets [] = ok []
  parse_nets (ip_str ∷ ips) = do
    net ← ok_or (parse_net ip_str) (invalid_cidr ip_str)
    nets ← parse_nets ips
    ok (net ∷ nets)

  unfoldable pub compile_src_ip : Option (List Bytes) → Checked (Option (List IpNet))
  compile_src_ip none = ok none
  compile_src_ip (some ips) = do nets ← parse_nets ips; ok (some nets)

  unfoldable pub compile_domains : Option (List Bytes) → Checked (Option (DomainFilter m))
  compile_domains none = ok none
  compile_domains (some domains) = do f ← new m domains; ok (some f)

  -- `method_set.insert(method.to_uppercase())` for each method.
  unfoldable pub insert_methods : List Bytes → List Bytes → List Bytes
  insert_methods set [] = set
  insert_methods set (method ∷ methods) = insert_methods (insert (to_uppercase method) set) methods

  abbrev pub compile_methods : Option (List Bytes) → Option (List Bytes)
  compile_methods none = none
  compile_methods (some methods) = some (insert_methods [] methods)

  -- One round of the loop of `AccessController::from_config`.
  unfoldable pub compile_rule : AclRuleConfig → Checked AclRule
  compile_rule cfg = do
    src_ip ← compile_src_ip cfg.src_ip
    dst_domain ← compile_domains cfg.dst_domain
    ok (record {
      action = action_of cfg.action;
      src_ip = src_ip;
      dst_domain = dst_domain;
      http_methods = compile_methods cfg.http_method;
      auth_users = auth_users_of cfg.auth;
    })

  unfoldable pub compile_rules : List AclRuleConfig → Checked (List AclRule)
  compile_rules [] = ok []
  compile_rules (cfg ∷ cfgs) = do
    rule ← compile_rule cfg
    rules ← compile_rules cfgs
    ok (rule ∷ rules)

  unfoldable pub from_config : AccessControlConfig → Checked AccessController
  from_config config = do
    rules ← compile_rules config.rules
    ok (record { default_action = action_of config.default_action; rules = rules })

  -- `ip_filter::ip_matches`.
  abbrev pub ip_matches : IpAddr → List IpNet → Bool
  ip_matches addr networks = any (λ net. net_contains net addr) networks

  abbrev pub matches_ip : Option (List IpNet) → IpAddr → Bool
  matches_ip (some networks) src_ip = ip_matches src_ip networks
  matches_ip none src_ip = true

  abbrev pub matches_domain : Option (DomainFilter m) → Option Bytes → Bool
  matches_domain (some f) (some domain) = matches m f domain
  matches_domain (some f) none = false
  matches_domain none domain = true

  abbrev pub matches_method : Option (List Bytes) → Option Bytes → Bool
  matches_method (some methods) (some method) = has methods (to_uppercase method)
  matches_method (some methods) none = false
  matches_method none method = true

  unfoldable pub rule_matches_full : AclRule → IpAddr → Option Bytes → Option Bytes → Bool
  rule_matches_full rule src_ip dst_domain method =
      if not (matches_ip rule.src_ip src_ip)
      then false
      else if not (matches_domain rule.dst_domain dst_domain)
      then false
      else if not (matches_method rule.http_methods method)
      then false
      else true

  unfoldable pub rule_matches : AclRule → IpAddr → Option Bytes → Bool
  rule_matches rule src_ip dst_domain =
      if not (matches_ip rule.src_ip src_ip)
      then false
      else if not (matches_domain rule.dst_domain dst_domain)
      then false
      else true

  -- The loop of `check_request`.
  unfoldable pub first_action :
      AclAction → List AclRule → IpAddr → Option Bytes → Option Bytes → AclAction
  first_action default [] src_ip dst_domain method = default
  first_action default (rule ∷ rules) src_ip dst_domain method =
      if rule_matches_full rule src_ip dst_domain method
      then rule.action
      else first_action default rules src_ip dst_domain method

  unfoldable pub check_request : AccessController → IpAddr → Option Bytes → Option Bytes → AclAction
  check_request c = first_action c.default_action c.rules

  unfoldable pub check_access : AccessController → IpAddr → Option Bytes → AclAction
  check_access c src_ip dst_domain = check_request c src_ip dst_domain none

  unfoldable pub check_ip : AccessController → IpAddr → AclAction
  check_ip c src_ip = check_access c src_ip none

  -- The loop of `get_auth_users_for_rule`, and its end.
  unfoldable pub first_users :
      AclAction → List AclRule → IpAddr → Option Bytes → Option (List UserCredential)
  first_users default [] src_ip dst_domain = if is_authenticate default then some [] else none
  first_users default (rule ∷ rules) src_ip dst_domain =
      if rule_matches rule src_ip dst_domain
      then (if is_authenticate rule.action then rule.auth_users else none)
      else first_users default rules src_ip dst_domain

  unfoldable pub get_auth_users_for_rule :
      AccessController → IpAddr → Option Bytes → Option (List UserCredential)
  get_auth_users_for_rule c = first_users c.default_action c.rules
