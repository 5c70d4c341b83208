-- ===== src/Socks5/Handshake/Authenticate.antt =====
-- `authenticate_user`: a login is accepted exactly when the credentials on the wire are listed.
use mathlib.Core.List.{append_assoc}
use peregrine_proxy.Base.{
  ◌≡◌, refl, Bool, true, false, not, if◌then◌else◌, ◌==◌, one_byte, List, [], ◌∷◌, ◌++◌, length,
  get_or, arith, none,
}
use peregrine_proxy.Base.Text.{Bytes, is_utf8, from_utf8, from_utf8_valid, from_utf8-eq-some}
use peregrine_proxy.Config.{UserCredential}
use peregrine_proxy.Error.{
  socks5, invalid_auth_version, invalid_username_encoding, invalid_password_encoding,
  authentication_failed,
}
use peregrine_proxy.Stream.{Conn, done, fail, fail_if, ok_or, write_all}
use peregrine_proxy.Stream.Laws.{
  read_exact-append, write_all_open, bind-eq-done, fail_if-eq-done, ok_or-eq-done,
  read_timed-eq-done,
}
use peregrine_proxy.Acl.Auth.{verify_credentials}
use peregrine_proxy.Acl.Auth.Laws.{IsListed, verify_credentials_iff}
use peregrine_proxy.Socks5.Handshake.{read_timed, conclude_auth, authenticate_user}

-- The login message of RFC 1929.
abbrev pub login : Bytes → Bytes → Bytes
login name password = 0x01 ∷ length name ∷ (name ++ length password ∷ password)

conclude_auth_lem :
    (ok : Bool) (s : Conn)
    → s.room ≡ none
    → conclude_auth ok s ≡ (
        if ok then (done tt, record s { output = s.output ++ 0x01 ∷ 0x00 ∷ [] }) else (
          fail (socks5 authentication_failed),
          record s { output = s.output ++ 0x01 ∷ 0x01 ∷ [] },
        ))
unfolding conclude_auth
conclude_auth_lem true s r = ground (arith, write_all_open (0x01 ∷ 0x00 ∷ []) s r)
conclude_auth_lem false s r = ground (arith, write_all_open (0x01 ∷ 0x01 ∷ []) s r)

-- A complete login in valid UTF-8 is answered by status 0 if the credentials are among the
-- configured ones, and by status 1 with an error if not; what follows it is left unread.
pub authenticate_user_lem :
    (users : List UserCredential) (name password rest : Bytes) (s : Conn)
    → s.input ≡ 0x01 ∷ length name ∷ name ++ (length password ∷ (password ++ rest))
    → s.room ≡ none
    → is_utf8 name ≡ true
    → is_utf8 password ≡ true
    → authenticate_user users s ≡ (
        if verify_credentials name password users
        then (done tt, record s { input = rest; output = s.output ++ 0x01 ∷ 0x00 ∷ [] })
        else (
          fail (socks5 authentication_failed),
          record s { input = rest; output = s.output ++ 0x01 ∷ 0x01 ∷ [] },
        ))
unfolding authenticate_user
authenticate_user_lem users name password rest s e r un up = ground (
  arith,
  read_exact-append 1 (0x01 ∷ []) (length name ∷ name ++ (length password ∷ (password ++ rest))) s e
      refl,
  read_exact-append 1 (length name ∷ []) (name ++ (length password ∷ (password ++ rest)))
      (record s { input = length name ∷ name ++ (length password ∷ (password ++ rest)) }) refl refl,
  read_exact-append (length name) name (length password ∷ password ++ rest)
      (record s { input = name ++ (length password ∷ (password ++ rest)) }) refl refl,
  read_exact-append 1 (length password ∷ []) (password ++ rest)
      (record s { input = length password ∷ password ++ rest }) refl refl,
  read_exact-append (length password) password rest (record s { input = password ++ rest }) refl
      refl,
  from_utf8_valid name un,
  from_utf8_valid password up,
  conclude_auth_lem (verify_credentials name password users) (record s { input = rest }) r,
)

conclude_auth-eq-done :
    (ok : Bool) (s : Conn) {u : Unit {0}} {s' : Conn}
    → conclude_auth ok s ≡ (done u, s')
    → (ok ≡ true) × (s'.input ≡ s.input)
unfolding conclude_auth write_all
conclude_auth-eq-done ok s h = ground arith

-- The login message in front of a rest, from its four reads.
login_lem :
    (ver ulen plen name password i1 i3 i4 i5 i6 i : Bytes)
    → i ≡ ver ++ i1
    → i1 ≡ ulen ++ i3
    → i3 ≡ name ++ i4
    → i4 ≡ plen ++ i5
    → i5 ≡ password ++ i6
    → length ver ≡ 1
    → length ulen ≡ 1
    → length plen ≡ 1
    → get_or ver 0 0 ≡ 1
    → length name ≡ get_or ulen 0 0
    → length password ≡ get_or plen 0 0
    → i ≡ login name password ++ i6
login_lem ver ulen plen name password i1 i3 i4 i5 i6 i e1 e2 e3 e4 e5 lv lu lp v ln lpw = cc (
  one_byte ver lv,
  one_byte ulen lu,
  one_byte plen lp,
  append_assoc name (length password ∷ password) i6,
)

-- What the eight steps of an accepted login say together.
accepted_login :
    (users : List UserCredential) (ver ulen username plen password name pass : Bytes)
    (s s1 s2 s3 s4 s5 s6 s7 s8 s' : Conn) {u2 u : Unit {0}}
    → read_timed 1 s ≡ (done ver, s1)
    → fail_if (not (get_or ver 0 0 == 0x01)) (socks5 invalid_auth_version) s1 ≡ (done u2, s2)
    → read_timed 1 s2 ≡ (done ulen, s3)
    → read_timed (get_or ulen 0 0) s3 ≡ (done username, s4)
    → read_timed 1 s4 ≡ (done plen, s5)
    → read_timed (get_or plen 0 0) s5 ≡ (done password, s6)
    → ok_or (from_utf8 username) (socks5 invalid_username_encoding) s6 ≡ (done name, s7)
    → ok_or (from_utf8 password) (socks5 invalid_password_encoding) s7 ≡ (done pass, s8)
    → conclude_auth (verify_credentials name pass users) s8 ≡ (done u, s')
    → (listed_name : Bytes) × (listed_password : Bytes) × IsListed listed_name listed_password users
      × (s.input ≡ login listed_name listed_password ++ s'.input)
accepted_login users ver ulen username plen password name pass s s1 s2 s3 s4 s5 s6 s7 s8 s' e1 e2 e3
      e4 e5 e6 e7 e8 e9 =
    let (listed, i9) = conclude_auth-eq-done (verify_credentials name pass users) s8 e9 in
    let (v, i2) = fail_if-eq-done _ _ s1 e2 in
    let (o7, i7) = ok_or-eq-done _ _ s6 e7 in
    let (o8, i8) = ok_or-eq-done _ _ s7 e8 in
    let (n, _) = from_utf8-eq-some username o7 in
    let (p, _) = from_utf8-eq-some password o8 in
    let (i1, l1, _, _) = read_timed-eq-done 1 s e1 in
    let (i3, l3, _, _) = read_timed-eq-done 1 s2 e3 in
    let (i4, l4, _, _) = read_timed-eq-done (get_or ulen 0 0) s3 e4 in
    let (i5, l5, _, _) = read_timed-eq-done 1 s4 e5 in
    let (i6, l6, _, _) = read_timed-eq-done (get_or plen 0 0) s5 e6 in
    (
      name,
      pass,
      (verify_credentials_iff name pass users).0 listed,
      login_lem ver ulen plen name pass s1.input s3.input s4.input s5.input s'.input s.input i1 (cc)
          (cc) i5 (cc) l1 l3 l5 (ground arith) (cc) (cc),
    )

-- A login that is accepted on any connection carried credentials that are configured, and took
-- exactly the login message from the wire.
pub authenticate_user-accepts :
    (users : List UserCredential) (s : Conn) {u : Unit {0}} {s' : Conn}
    → authenticate_user users s ≡ (done u, s')
    → (name : Bytes) × (password : Bytes) × IsListed name password users
      × (s.input ≡ login name password ++ s'.input)
unfolding authenticate_user
authenticate_user-accepts users s h =
    let (ver, s1, e1, h1) = bind-eq-done (read_timed 1) _ s h in
    let (_, s2, e2, h2) =
      bind-eq-done (fail_if (not (get_or ver 0 0 == 0x01)) (socks5 invalid_auth_version)) _ s1 h1 in
    let (ulen, s3, e3, h3) = bind-eq-done (read_timed 1) _ s2 h2 in
    let (username, s4, e4, h4) = bind-eq-done (read_timed (get_or ulen 0 0)) _ s3 h3 in
    let (plen, s5, e5, h5) = bind-eq-done (read_timed 1) _ s4 h4 in
    let (password, s6, e6, h6) = bind-eq-done (read_timed (get_or plen 0 0)) _ s5 h5 in
    let (name, s7, e7, h7) =
      bind-eq-done (ok_or (from_utf8 username) (socks5 invalid_username_encoding)) _ s6 h6 in
    let (pass, s8, e8, h8) =
      bind-eq-done (ok_or (from_utf8 password) (socks5 invalid_password_encoding)) _ s7 h7 in
    accepted_login users ver ulen username plen password name pass s s1 s2 s3 s4 s5 s6 s7 s8 _ e1 e2
      e3 e4 e5 e6 e7 e8 h8
