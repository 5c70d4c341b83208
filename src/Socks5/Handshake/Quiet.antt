-- ===== src/Socks5/Handshake/Quiet.antt =====
-- No phase of the handshake opens a connection.
use peregrine_proxy.Base.{ℕ, Bool, Option, List, arith}
use peregrine_proxy.Config.{UserCredential}
use peregrine_proxy.Stream.Quiet.{IsQuiet, quiet_rules}
use peregrine_proxy.Socks5.Handshake.{
  negotiate_method, authenticate_user, conclude_auth, read_port, read_ipv4, read_domain, read_ipv6,
  read_request, parse_command, read_target,
}

pub negotiate_method-IsQuiet :
    (users : Option (List UserCredential)) → IsQuiet (negotiate_method users)
unfolding negotiate_method
negotiate_method-IsQuiet users = search quiet_rules depth 12

conclude_auth-IsQuiet : (ok : Bool) → IsQuiet (conclude_auth ok)
unfolding conclude_auth
conclude_auth-IsQuiet ok = search quiet_rules depth 12

pub authenticate_user-IsQuiet : (users : List UserCredential) → IsQuiet (authenticate_user users)
unfolding authenticate_user
authenticate_user-IsQuiet users = search (quiet_rules, conclude_auth-IsQuiet) depth 20

parse_command-IsQuiet : (c : ℕ) → IsQuiet (parse_command c)
unfolding parse_command
parse_command-IsQuiet c = record { keeps = λ s. ground arith }

read_port-IsQuiet : IsQuiet read_port
unfolding read_port
read_port-IsQuiet = search quiet_rules depth 12

read_ipv4-IsQuiet : IsQuiet read_ipv4
unfolding read_ipv4
read_ipv4-IsQuiet = search quiet_rules depth 12

read_domain-IsQuiet : IsQuiet read_domain
unfolding read_domain
read_domain-IsQuiet = search quiet_rules depth 12

read_ipv6-IsQuiet : IsQuiet read_ipv6
unfolding read_ipv6
read_ipv6-IsQuiet = search quiet_rules depth 12

read_target-IsQuiet : (c : ℕ) → IsQuiet (read_target c)
unfolding read_target
read_target-IsQuiet c = record {
  keeps = λ s.
      ground
        (arith, read_ipv4-IsQuiet.keeps s, read_domain-IsQuiet.keeps s, read_ipv6-IsQuiet.keeps s);
}

pub read_request-IsQuiet : IsQuiet read_request
unfolding read_request
read_request-IsQuiet = search (quiet_rules, parse_command-IsQuiet, read_target-IsQuiet) depth 12
