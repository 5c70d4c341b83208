-- ===== src/Tests/Sample.antt =====
-- Concrete networks, encoders, matchers and connections.
use peregrine_proxy.Base.{
  ℕ, zero, suc, ◌+◌, ◌≤◌, ◌≡◌, refl, ap, sym, ◌∙◌, Bool, false, ◌==◌, if◌then◌else◌, Option, none,
  some, List, [], ◌∷◌, ◌++◌, length, length-append, any, list_eq, starts_with, All, All-append,
  arith,
}
use peregrine_proxy.Base.Text.{Bytes, codes}
use peregrine_proxy.Base.Search.{IsSolid}
use peregrine_proxy.Config.{UserCredential, AppConfig, AclActionConfig, UpstreamConfig, Protocol}
use peregrine_proxy.Stream.{Conn, silent}
use peregrine_proxy.Network.{Network, opened, bound, v4}
use peregrine_proxy.Acl.Auth.{Base64}
use peregrine_proxy.Acl.Matchers.{Matchers, IpAddr}

-- An encoding with the laws of base64: each number as so many ones and a zero.
abbrev pub unary : ℕ → Bytes
unary zero = b'0' ∷ []
unary (suc n) = b'1' ∷ unary n

unfoldable pub encode : Bytes → Bytes
encode [] = []
encode (b ∷ bs) = unary b ++ encode bs

unfoldable pub decode_from : ℕ → Bytes → Bytes
decode_from n [] = []
decode_from n (c ∷ cs) =
    let more = decode_from (suc n) cs in
    let rest = decode_from 0 cs in if c == b'1' then more else n ∷ rest

plus : ℕ → ℕ → ℕ
plus n zero = n
plus n (suc k) = plus (suc n) k

decode-unary :
    (k n : ℕ) (rest : Bytes) → decode_from n (unary k ++ rest) ≡ plus n k ∷ decode_from 0 rest
unfolding decode_from plus
decode-unary zero n rest = refl
decode-unary (suc k) n rest = decode-unary k (suc n) rest

plus_lem : (k n : ℕ) → plus n k ≡ n + k
unfolding plus
plus_lem zero n = omega arith
plus_lem (suc k) n = omega (arith, plus_lem k (suc n))

pub decode-encode : (b : Bytes) → decode_from 0 (encode b) ≡ b
unfolding encode decode_from
decode-encode [] = refl
decode-encode (b ∷ bs) =
    decode-unary b 0 (encode bs)
    ∙ ap (λ x. x ∷ decode_from 0 (encode bs)) (plus_lem b 0 ∙ (omega arith))
    ∙ ap (◌∷◌ b) (decode-encode bs)

unary-IsSolid : (n : ℕ) → All IsSolid (unary n)
unary-IsSolid zero = omega arith
unary-IsSolid (suc n) = (omega arith, unary-IsSolid n)

pub encode-IsSolid : (b : Bytes) → All IsSolid (encode b)
unfolding encode
encode-IsSolid [] = tt
encode-IsSolid (b ∷ bs) =
    All-append IsSolid (unary b) (encode bs) (unary-IsSolid b) (encode-IsSolid bs)

length-unary : (n : ℕ) → 1 ≤ length (unary n)
length-unary zero = omega arith
length-unary (suc n) = omega (arith, length-unary n)

pub length-encode : (b : Bytes) → length b ≤ length (encode b)
unfolding encode
length-encode [] = omega arith
length-encode (b ∷ bs) =
    omega (arith, length-append (unary b) (encode bs), length-unary b, length-encode bs)

pub same_any : (p : Bytes → Bool) (gs set : List Bytes) → some gs ≡ some set → any p set ≡ any p gs
same_any p gs set e = ap (λ o. any_of p o) (sym e)
  where
    any_of : (Bytes → Bool) → Option (List Bytes) → Bool
    any_of p none = false
    any_of p (some xs) = any p xs

abbrev pub tally : Base64
tally = record {
  encode = encode;
  decode = λ b. some (decode_from 0 b);
  decode-encode = λ b. ap some (decode-encode b);
  encode_solid = encode-IsSolid;
  length-encode = length-encode;
}

abbrev pub contained : Bytes → IpAddr → Bool
contained net (IpAddr.v4 octets) = starts_with net octets
contained net (IpAddr.v6 octets) = starts_with net octets

-- Matchers for which a pattern is the text it matches and a network a beginning of its addresses.
abbrev pub literal : Matchers
literal = record {
  Glob = Bytes;
  GlobSet = List Bytes;
  RegexSet = List Bytes;
  IpNet = Bytes;
  glob_new = λ g. some g;
  glob_matches = λ g text. list_eq g text;
  glob_build = λ gs. some gs;
  globs_match = λ set text. any (λ g. list_eq g text) set;
  globs_match_any = λ gs set text. same_any (λ g. list_eq g text) gs set;
  regex_matches = λ p text. list_eq p text;
  regex_build = λ ps. some ps;
  regexes_match = λ set text. any (λ p. list_eq p text) set;
  regexes_match_any = λ ps set text. same_any (λ p. list_eq p text) ps set;
  parse_net = λ text. some text;
  net_contains = contained;
  to_uppercase = λ text. text;
}

abbrev pub talk : Bytes → Conn
talk bytes = record {
  input = bytes;
  ending = silent;
  segments = [];
  output = [];
  room = none;
  events = [];
}

-- Every address answers, and relays are bound at 127.0.0.1:5000.
abbrev pub local : Network
local = record {
  tcp_connect = λ addr. opened (talk []);
  udp_bind = bound (v4 (127 ∷ 0 ∷ 0 ∷ 1 ∷ []) 5000);
}

abbrev pub alice : UserCredential
alice = record { username = codes "alice"; password = codes "s3:cret" }

abbrev pub localhost : IpAddr
localhost = IpAddr.v4 (127 ∷ 0 ∷ 0 ∷ 1 ∷ [])

-- One listener and one permit.
abbrev pub config : AppConfig
config = record {
  server = record {
    listen =
        (record { addr = codes "127.0.0.1:1080"; protocol = Protocol.socks5; tls = none }) ∷ [];
    max_connections = some 1;
    tcp_keepalive = none;
    connect_timeout = none;
    read_timeout = none;
    write_timeout = none;
  };
  access_control = record { default_action = AclActionConfig.allow; rules = [] };
  upstream = UpstreamConfig.direct;
  logging = record { level = codes "info"; access_log = none; format = none };
  metrics = none;
}
