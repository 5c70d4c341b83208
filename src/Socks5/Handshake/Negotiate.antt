-- ===== src/Socks5/Handshake/Negotiate.antt =====
-- `negotiate_method`: which method is chosen, what is answered, and how every failure ends.
use peregrine_proxy.Base.{
  ℕ, ◌≡◌, refl, Option, none, some, List, [], ◌∷◌, ◌++◌, length, contains, arith, get_or,
  if◌then◌else◌, ◌==◌, not,
}
use peregrine_proxy.Base.Text.{Bytes}
use peregrine_proxy.Config.{UserCredential}
use peregrine_proxy.Error.{socks5, invalid_version, no_acceptable_method}
use peregrine_proxy.Stream.{fail_if, Conn, done, fail, write_all}
use peregrine_proxy.Stream.Laws.{bind-eq-done, read_exact-append, write_all_open}
use peregrine_proxy.Socks5.Handshake.{read_timed, select_method, negotiate_method}

-- The method that the configuration calls for: passwords exactly when users are configured.
abbrev pub wanted_method : Option (List UserCredential) → ℕ
wanted_method (some users) = 0x02
wanted_method none = 0x00

-- On a complete greeting from a client that takes the answer: the wanted method if the client
-- offers it, and the answer 0xFF with an error if not. Nothing beyond the greeting is read.
pub negotiate_method_lem :
    (users : Option (List UserCredential)) (methods rest : Bytes) (s : Conn)
    → s.input ≡ 0x05 ∷ length methods ∷ methods ++ rest
    → s.room ≡ none
    → let wanted = wanted_method users in
      negotiate_method users s ≡ (
        if contains methods wanted
        then (done wanted, record s { input = rest; output = s.output ++ 0x05 ∷ wanted ∷ [] })
        else (
          fail (socks5 no_acceptable_method),
          record s { input = rest; output = s.output ++ 0x05 ∷ 0xff ∷ [] },
        ))
unfolding negotiate_method select_method
negotiate_method_lem users methods rest s e r = ground (
  arith,
  read_exact-append 2 (0x05 ∷ length methods ∷ []) (methods ++ rest) s e refl,
  read_exact-append (length methods) methods rest (record s { input = methods ++ rest }) refl refl,
  write_all_open (0x05 ∷ wanted_method users ∷ []) (record s { input = rest }) r,
  write_all_open (0x05 ∷ 0xff ∷ []) (record s { input = rest }) r,
)

-- On any connection, a negotiation that ends well has agreed on the wanted method: with users
-- configured a client never gets past it without passwords.
pub negotiate_method-wanted :
    (users : Option (List UserCredential)) (s : Conn) {method : ℕ} {s' : Conn}
    → negotiate_method users s ≡ (done method, s')
    → method ≡ wanted_method users
unfolding negotiate_method select_method
negotiate_method-wanted users s h =
    let (header, s1, _, h1) = bind-eq-done (read_timed 2) _ s h in
    let (_, s2, _, h2) =
      bind-eq-done (fail_if (not (get_or header 0 0 == 0x05)) (socks5 invalid_version)) _ s1 h1 in
    let (methods, s3, _, h3) = bind-eq-done (read_timed (get_or header 1 0)) _ s2 h2 in
    let (_, s4, _, h4) =
      bind-eq-done (write_all (0x05 ∷ select_method users methods ∷ [])) _ s3 h3 in
    ground arith
