-- ===== src/Acl/Access/Meaning.antt =====
-- The compiled rules of src/acl/mod.rs mean what the configuration says without its dst_port lists,
-- which from_config does not read.
use peregrine_proxy.Base.{
  ℕ, ◌≡◌, refl, Bool, true, false, ◌&&◌, ◌||◌, Option, none, some, List, [], ◌∷◌, any, list_eq,
  if◌then◌else◌, arith,
}
use peregrine_proxy.Base.Text.{Bytes}
use peregrine_proxy.Config.{AclRuleConfig, AccessControlConfig}
use peregrine_proxy.Acl.Matchers.{Matchers, IpAddr, ok, ok_or, invalid_cidr, bind-eq-ok}
use peregrine_proxy.Acl.DomainFilter.{DomainFilter, has, insert, new}
use peregrine_proxy.Acl.DomainFilter.Meaning.{has-insert, pattern_matches, new-matches}
use peregrine_proxy.Acl.Access.{
  AclAction, AclRule, AccessController, action_of, parse_nets, compile_src_ip, compile_domains,
  insert_methods, compile_methods, compile_rule, compile_rules, from_config, ip_matches, matches_ip,
  matches_domain, matches_method, rule_matches_full, first_action, check_request,
}

-- The configuration with the `dst_port` lists of its rules replaced.
abbrev pub replace_ports :
    (AclRuleConfig → Option (List Bytes)) → List AclRuleConfig → List AclRuleConfig
replace_ports ports [] = []
replace_ports ports (cfg ∷ cfgs) = record cfg { dst_port = ports cfg } ∷ replace_ports ports cfgs

-- The rules with no `dst_port` lists.
abbrev pub without_ports : List AclRuleConfig → List AclRuleConfig
without_ports cfgs = replace_ports (λ cfg. none) cfgs

-- `names` is how a text of a `dst_port` list names a port: the code has no reading of it.
module _ (m : Matchers) (names : Bytes → ℕ → Bool) (src_ip : IpAddr) (dst_port : ℕ)
    (dst_domain method : Option Bytes) where
  open m use {IpNet, parse_net, net_contains, to_uppercase}

  abbrev pub net_hit : Option IpNet → Bool
  net_hit none = false
  net_hit (some net) = net_contains net src_ip

  -- The filters of a rule as the configuration lists them. An absent list does not restrict; a
  -- list needs one entry that fits, and a request that has what the list is about.
  abbrev pub ip_listed : Option (List Bytes) → Bool
  ip_listed none = true
  ip_listed (some ips) = any (λ ip_str. net_hit (parse_net ip_str)) ips

  abbrev pub domain_listed : Option (List Bytes) → Option Bytes → Bool
  domain_listed none domain = true
  domain_listed (some patterns) none = false
  domain_listed (some patterns) (some domain) = any (pattern_matches m domain) patterns

  abbrev pub method_listed : Option (List Bytes) → Option Bytes → Bool
  method_listed none name = true
  method_listed (some methods) none = false
  method_listed (some methods) (some name) =
      any (λ x. list_eq (to_uppercase x) (to_uppercase name)) methods

  abbrev pub port_listed : Option (List Bytes) → Bool
  port_listed none = true
  port_listed (some ports) = any (λ text. names text dst_port) ports

  abbrev pub rule_applies : AclRuleConfig → Bool
  rule_applies cfg =
      port_listed cfg.dst_port
      && (ip_listed cfg.src_ip
          && (domain_listed cfg.dst_domain dst_domain && method_listed cfg.http_method method))

  -- What the configuration says of the request, rule by rule.
  abbrev pub configured_action : AclAction → List AclRuleConfig → AclAction
  configured_action default [] = default
  configured_action default (cfg ∷ cfgs) =
      if rule_applies cfg then action_of cfg.action else configured_action default cfgs

  parse_nets_lem :
      (ips : List Bytes) {nets : List IpNet}
      → parse_nets m ips ≡ ok nets
      → ip_matches m src_ip nets ≡ any (λ ip_str. net_hit (parse_net ip_str)) ips
  unfolding parse_nets
  parse_nets_lem [] h = ground arith
  parse_nets_lem (ip_str ∷ ips) h =
      let (net, h1, k1) = bind-eq-ok (ok_or (parse_net ip_str) (invalid_cidr ip_str)) _ h in
      let (nets, h2, k2) = bind-eq-ok (parse_nets m ips) _ k1 in
      ground (arith, parse_nets_lem ips h2)

  compile_src_ip_lem :
      (o : Option (List Bytes)) {c : Option (List IpNet)}
      → compile_src_ip m o ≡ ok c
      → matches_ip m c src_ip ≡ ip_listed o
  unfolding compile_src_ip
  compile_src_ip_lem none h = ground arith
  compile_src_ip_lem (some ips) h =
      let (nets, h1, k1) = bind-eq-ok (parse_nets m ips) _ h in
      ground (arith, parse_nets_lem ips h1)

  compiled_domains :
      (patterns : List Bytes) (f : DomainFilter m) (domain : Option Bytes)
      → new m patterns ≡ ok f
      → matches_domain m (some f) domain ≡ domain_listed (some patterns) domain
  compiled_domains patterns f none h = refl
  compiled_domains patterns f (some domain) h = new-matches m domain patterns f h

  compile_domains_lem :
      (o : Option (List Bytes)) {c : Option (DomainFilter m)}
      → compile_domains m o ≡ ok c
      → matches_domain m c dst_domain ≡ domain_listed o dst_domain
  unfolding compile_domains
  compile_domains_lem none h = ground arith
  compile_domains_lem (some patterns) h =
      let (f, h1, k1) = bind-eq-ok (new m patterns) _ h in
      ground (arith, compiled_domains patterns f dst_domain h1)

  insert_methods_lem :
      (methods set : List Bytes) (name : Bytes)
      → has (insert_methods m set methods) name
        ≡ (any (λ x. list_eq (to_uppercase x) name) methods || has set name)
  unfolding insert_methods
  insert_methods_lem [] set name = refl
  insert_methods_lem (x ∷ methods) set name = ground (
    arith,
    insert_methods_lem methods (insert (to_uppercase x) set) name,
    has-insert (to_uppercase x) set name,
  )

  compile_methods_lem :
      (name : Option Bytes) (methods : Option (List Bytes))
      → matches_method m (compile_methods m methods) name ≡ method_listed methods name
  compile_methods_lem name none = refl
  compile_methods_lem none (some methods) = refl
  compile_methods_lem (some name) (some methods) =
      ground (arith, insert_methods_lem methods [] (to_uppercase name))

  compile_rule_lem :
      (cfg : AclRuleConfig) {rule : AclRule m}
      → compile_rule m cfg ≡ ok rule
      → (rule_matches_full m rule src_ip dst_domain method
          ≡ rule_applies (record cfg { dst_port = none }))
        × (rule.action ≡ action_of cfg.action)
  unfolding compile_rule rule_matches_full
  compile_rule_lem cfg h =
      let (ips, h1, k1) = bind-eq-ok (compile_src_ip m cfg.src_ip) _ h in
      let (domains, h2, k2) = bind-eq-ok (compile_domains m cfg.dst_domain) _ k1 in
      let ip_same = compile_src_ip_lem cfg.src_ip h1 in
      let domain_same = compile_domains_lem cfg.dst_domain h2 in
      let method_same = compile_methods_lem method cfg.http_method in (ground arith, ground arith)

  compile_rules_lem :
      (default : AclAction) (cfgs : List AclRuleConfig) {rules : List (AclRule m)}
      → compile_rules m cfgs ≡ ok rules
      → first_action m default rules src_ip dst_domain method
        ≡ configured_action default (without_ports cfgs)
  unfolding compile_rules first_action
  compile_rules_lem default [] h = ground arith
  compile_rules_lem default (cfg ∷ cfgs) h =
      let (rule, h1, k1) = bind-eq-ok (compile_rule m cfg) _ h in
      let (rules, h2, k2) = bind-eq-ok (compile_rules m cfgs) _ k1 in
      let same = compile_rule_lem cfg h1 in
      let rest = compile_rules_lem default cfgs h2 in ground arith

  -- A controller that could be built decides every request, to whatever port and however ports are
  -- named, as its configuration says once the dst_port lists are taken out of its rules: by the first
  -- rule whose lists of networks, of domain patterns and of methods all accept it, else by the
  -- default action.
  pub from_config-check_request :
      (config : AccessControlConfig) (c : AccessController m)
      → from_config m config ≡ ok c
      → check_request m c src_ip dst_domain method
        ≡ configured_action (action_of config.default_action) (without_ports config.rules)
  unfolding from_config check_request
  from_config-check_request config c h =
      let (rules, h1, k1) = bind-eq-ok (compile_rules m config.rules) _ h in
      let same = compile_rules_lem (action_of config.default_action) config.rules h1 in ground arith

module _ (m : Matchers) (ports : AclRuleConfig → Option (List Bytes)) where
  compile_rules_ports :
      (cfgs : List AclRuleConfig)
      → compile_rules m (replace_ports ports cfgs) ≡ compile_rules m cfgs
  unfolding compile_rules compile_rule
  compile_rules_ports [] = refl
  compile_rules_ports (cfg ∷ cfgs) = rw (compile_rules_ports cfgs)

  -- The ports of a rule have no effect: the same controller is built whatever `dst_port` says.
  pub from_config_ports :
      (config : AccessControlConfig)
      → from_config m (record config { rules = replace_ports ports config.rules })
        ≡ from_config m config
  unfolding from_config
  from_config_ports config = rw (compile_rules_ports config.rules)
