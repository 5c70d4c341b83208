-- ===== src/Socks5/Access.antt =====
-- Who reaches the network through the SOCKS5 server.
use peregrine_proxy.Base.{ℕ, ◌≡◌, ◌≢◌, ap, if◌then◌else◌, List, some, ◌++◌, ◌==◌}
use peregrine_proxy.Base.Text.{Bytes}
use peregrine_proxy.Config.{UserCredential}
use peregrine_proxy.Stream.{Conn, done, pure, ◌>>=◌, ◌>>◌}
use peregrine_proxy.Stream.Quiet.{bind-events}
use peregrine_proxy.Network.{Network}
use peregrine_proxy.Acl.Auth.Laws.{IsListed}
use peregrine_proxy.Socks5.Handshake.{negotiate_method, authenticate_user, read_request}
use peregrine_proxy.Socks5.Handshake.Negotiate.{negotiate_method-wanted}
use peregrine_proxy.Socks5.Handshake.Authenticate.{authenticate_user-accepts, login}
use peregrine_proxy.Socks5.Handshake.Quiet.{negotiate_method-IsQuiet, authenticate_user-IsQuiet}
use peregrine_proxy.Socks5.{handle_socks5, handle_socks5_inner, authenticate_if, dispatch}

-- The part behind the negotiation, for the method that it must have chosen.
after_negotiation :
    (net : Network) (users : List UserCredential) (method : ℕ) (t : Conn)
    → method ≡ 2
    → ((authenticate_if method (some users)
          >> (read_request >>= λ request. dispatch net request.command request))
        t).1.events
      ≢ t.events
    → (name : Bytes) × (password : Bytes) × (rest : Bytes) × IsListed name password users
      × (t.input ≡ login name password ++ rest)
unfolding authenticate_if
after_negotiation net users method t e h =
    let (u, t', a, _) =
      bind-events (authenticate_user users) _ t (authenticate_user-IsQuiet users)
        (rw (ap (λ m. if m == 2 then authenticate_user users else pure tt) e) at h) in
    let (name, password, listed, i) = authenticate_user-accepts users t a in
    (name, password, t'.input, listed, i)

-- With users configured, a client that makes the server open a connection or start a relay has
-- sent, right after its greeting, a login message with credentials that are configured.
pub handle_socks5-authenticated :
    (net : Network) (users : List UserCredential) (s : Conn)
    → (handle_socks5 net (some users) s).events ≢ s.events
    → (name : Bytes) × (password : Bytes) × (rest : Bytes) × (t : Conn) × IsListed name password
        users
      × (negotiate_method (some users) s ≡ (done 2, t))
      × (t.input ≡ login name password ++ rest)
unfolding handle_socks5 handle_socks5_inner
handle_socks5-authenticated net users s h =
    let (m, t, e, h1) =
      bind-events (negotiate_method (some users)) _ s (negotiate_method-IsQuiet (some users)) h in
    let two = negotiate_method-wanted (some users) s e in
    let (name, password, rest, listed, i) = after_negotiation net users m t two h1 in
    (name, password, rest, t, listed, rw two at e, i)
