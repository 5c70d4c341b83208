-- ===== src/Acl/Access/Order.antt =====
-- The order of the rules decides.
use peregrine_proxy.Base.{
  ◌≡◌, refl, ◌⊎◌, inl, inr, ap, true, false, Option, List, [], ◌∷◌, ◌++◌, All, Bool-cases,
}
use peregrine_proxy.Base.Text.{Bytes}
use peregrine_proxy.Acl.Matchers.{Matchers, IpAddr}
use peregrine_proxy.Acl.Access.{
  AclAction, AclRule, AccessController, rule_matches_full, first_action, check_request,
}

module _ (m : Matchers) (src_ip : IpAddr) (dst_domain method : Option Bytes) where
  abbrev Skips : AclRule m → Type 0
  Skips rule = rule_matches_full m rule src_ip dst_domain method ≡ false

  -- No rule applies and the default does, or the action is that of a rule that applies, with none
  -- before it that applies.
  abbrev pub Decides : AclAction → List (AclRule m) → AclAction → Type 0
  Decides default rules action =
      (All Skips rules × (action ≡ default))
      ⊎ ((before : List (AclRule m)) × (rule : AclRule m) × (after : List (AclRule m)) × (rules
            ≡ before ++ rule ∷ after)
          × All Skips before
          × (rule_matches_full m rule src_ip dst_domain method ≡ true)
          × (action ≡ rule.action))

  first_action_none :
      (default : AclAction) → first_action m default [] src_ip dst_domain method ≡ default
  unfolding first_action
  first_action_none default = refl

  first_action_hit :
      (default : AclAction) (rule : AclRule m) (rules : List (AclRule m))
      → rule_matches_full m rule src_ip dst_domain method ≡ true
      → first_action m default (rule ∷ rules) src_ip dst_domain method ≡ rule.action
  unfolding first_action
  first_action_hit default rule rules hit = rw hit

  first_action_miss :
      (default : AclAction) (rule : AclRule m) (rules : List (AclRule m))
      → Skips rule
      → first_action m default (rule ∷ rules) src_ip dst_domain method
        ≡ first_action m default rules src_ip dst_domain method
  unfolding first_action
  first_action_miss default rule rules miss = rw miss

  Decides-later :
      (default : AclAction) (rule : AclRule m) (rules : List (AclRule m)) {action : AclAction}
      → Skips rule
      → Decides default rules action
      → Decides default (rule ∷ rules) action
  Decides-later default rule rules miss (inl (all, e)) = inl ((miss, all), e)
  Decides-later default rule rules miss (inr (before, r, after, e, all, hit, k)) =
      inr (rule ∷ before, r, after, ap (◌∷◌ rule) e, (miss, all), hit, k)

  first_action-Decides :
      (default : AclAction) (rules : List (AclRule m))
      → Decides default rules (first_action m default rules src_ip dst_domain method)
  first_action-Decides default [] = inl (tt, first_action_none default)
  first_action-Decides default (rule ∷ rules) =
      elim (Bool-cases (rule_matches_full m rule src_ip dst_domain method)) [
        | inl hit ↦ inr ([], rule, rules, refl, tt, hit, first_action_hit default rule rules hit)
        | inr miss ↦
            rw (first_action_miss default rule rules miss)
              (Decides-later default rule rules miss (first_action-Decides default rules))
      ]

  -- A request is decided by the first rule all of whose filters accept it, and by the default
  -- action if there is none.
  pub check_request-Decides :
      (c : AccessController m)
      → Decides c.default_action c.rules (check_request m c src_ip dst_domain method)
  unfolding check_request
  check_request-Decides c = first_action-Decides c.default_action c.rules
