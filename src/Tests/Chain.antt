-- ===== src/Tests/Chain.antt =====
-- The chain connector of src/upstream/chain.rs through two servers.
use peregrine_proxy.Base.{◌≡◌, refl, sym, ap, All, inl, none, some, List, [], ◌∷◌, ◌++◌, arith}
use peregrine_proxy.Base.Text.{Bytes, codes, is_utf8_ascii}
use peregrine_proxy.Config.{UserCredential}
use peregrine_proxy.Acl.Auth.Laws.{verify_credentials_iff}
use peregrine_proxy.Stream.{done}
use peregrine_proxy.Network.{Network, opened, bound, v4}
use peregrine_proxy.Upstream.{address}
use peregrine_proxy.Upstream.Chain.{chain_connect}
use peregrine_proxy.Upstream.Chain.Relays.{
  by_socks5, by_login, Relay, chain_of, agreement, transcript,
}
use peregrine_proxy.Upstream.Chain.Servers.{
  Listed, Carried, IsServer, Opens, serve_chain, next_addresses, tunnels,
}
use peregrine_proxy.Upstream.Chain.Served.{serve_chain_lem, chain_connect-serve_chain}
use peregrine_proxy.Upstream.Socks5Client.Wire.{success}
use peregrine_proxy.Tests.Sample.{tally, talk, alice}

abbrev host : Bytes
host = codes "example.org"

abbrev entry_server : Relay
entry_server = record {
  host = codes "entry.example";
  port = 1080;
  auth = none;
  tls = none;
  speaks = by_socks5;
}

abbrev exit_server : Relay
exit_server = record {
  host = codes "exit.example";
  port = 1081;
  auth = some alice;
  tls = none;
  speaks = by_login;
}

abbrev two_servers : List Relay
two_servers = entry_server ∷ exit_server ∷ []

abbrev said : Bytes
said = transcript tally two_servers host 443 ++ 7 ∷ []

-- Every address can be opened, and the peer there says what it is given.
abbrev reachable : Bytes → Network
reachable answers = record {
  tcp_connect = λ addr. opened (talk answers);
  udp_bind = bound (v4 (127 ∷ 0 ∷ 0 ∷ 1 ∷ []) 5000);
}

-- The answers of two servers that connect, and then the target's.
abbrev told : Bytes
told = 0x05 ∷ 0x00 ∷ (success ++ (0x05 ∷ 0x02 ∷ 0x01 ∷ 0x00 ∷ (success ++ 8 ∷ [])))

host-Carried : Carried host 443
host-Carried = (omega arith, is_utf8_ascii host (omega arith), omega arith)

-- Every server has alice for a user.
abbrev users : Relay → List UserCredential
users r = alice ∷ []

alice-Listed : Listed (alice ∷ []) alice
alice-Listed = (
  (verify_credentials_iff alice.username alice.password (alice ∷ [])).1 (inl (refl, refl)),
  omega arith,
  is_utf8_ascii alice.username (omega arith),
  omega arith,
  is_utf8_ascii alice.password (omega arith),
)

two_servers-IsServer : All (IsServer users) two_servers
two_servers-IsServer = (
  (tt, (omega arith, is_utf8_ascii (codes "entry.example") (omega arith), omega arith)),
  (
    (alice-Listed, (omega arith, is_utf8_ascii (codes "exit.example") (omega arith), omega arith)),
    tt,
  ),
)

servers_reached : All (Opens (reachable told)) (next_addresses two_servers host 443)
unfolding next_addresses
servers_reached = ((talk told, refl), ((talk told, refl), tt))

told_lem : told ≡ (serve_chain (reachable told) users two_servers said).answers ++ 8 ∷ []
unfolding agreement
told_lem = sym (
    ap (λ s. s.answers ++ 8 ∷ [])
      (serve_chain_lem (reachable told) tally users two_servers host (7 ∷ []) 443
        two_servers-IsServer host-Carried servers_reached))

chain_connect-serve_chain_example :
    (chain_connect tally (reachable told) (chain_of two_servers) (address host 443)
      ≡ done
          (record (talk told) { input = 8 ∷ []; output = transcript tally two_servers host 443 }))
    × ((serve_chain (reachable told) users two_servers said).left ≡ 7 ∷ [])
    × ((serve_chain (reachable told) users two_servers said).events
        ≡ tunnels (next_addresses two_servers host 443))
chain_connect-serve_chain_example =
    chain_connect-serve_chain (reachable told) tally users entry_server (exit_server ∷ []) host
      (7 ∷ []) (8 ∷ []) 443 (talk told) two_servers-IsServer host-Carried servers_reached refl
      told_lem refl
