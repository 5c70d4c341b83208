-- ===== src/Startup/Tls/Accepts.antt =====
-- When an acceptor is made, and of what.
use peregrine_proxy.Base.{
  ◌↔◌, map, Option, none, some, List, [], ◌∷◌, ◌≡◌, ◌≢◌, refl, ap, sym, ◌∙◌, arith,
}
use peregrine_proxy.Base.Text.{Bytes}
use peregrine_proxy.Config.{TlsConfig}
use peregrine_proxy.Error.{IoError}
use peregrine_proxy.Startup.{
  TlsMessage, open_cert_failed, open_key_failed, parse_certs_failed, parse_key_failed,
  no_certificates, no_private_key, ok, bind-eq-ok,
}
use peregrine_proxy.Startup.Tls.{
  Fallible, good, bad, Pem, TlsAcceptor, map_err, cons_good, collect, fail_if_empty, ok_or,
  accept_pair, load_tls_acceptor,
}

collect→map :
    {E A : Type 0} (rs : List (Fallible E A)) (values : List A)
    → collect rs ≡ good values
    → rs ≡ map good values
unfolding collect cons_good
collect→map [] values h = ground arith
collect→map (bad e ∷ rs) values h = cc
collect→map {E} {A} (good a ∷ rs) values h = go (collect rs) (collect→map rs) h
  where
    go :
        (r : Fallible E (List A))
        → ((more : List A) → r ≡ good more → rs ≡ map good more)
        → cons_good a r ≡ good values
        → good a ∷ rs ≡ map good values
    go (good more) e k = ground (arith, e more refl)
    go (bad e') e k = cc

collect-map : {E A : Type 0} (values : List A) → collect {E = E} (map good values) ≡ good values
unfolding collect cons_good
collect-map [] = refl
collect-map {E} (a ∷ values) = rw (collect-map {E = E} values) refl

ok_injective : (a b : TlsAcceptor) → ok a ≡ ok b → a ≡ b
ok_injective a b h = cc

map_err-eq-ok :
    {E A : Type 0} (r : Fallible E A) (f : E → TlsMessage) {a : A} → map_err r f ≡ ok a → r ≡ good a
map_err-eq-ok (good a) f h = cc
map_err-eq-ok (bad e) f h = absurd (cc)

map_err-good :
    {E A : Type 0} {r : Fallible E A} (f : E → TlsMessage) {a : A} → r ≡ good a → map_err r f ≡ ok a
map_err-good f h = rw h refl

fail_if_empty-eq-ok :
    (certs : List Bytes) (m : TlsMessage) {u : Unit {0}} → fail_if_empty certs m ≡ ok u → certs ≢ []
fail_if_empty-eq-ok [] m h e = cc
fail_if_empty-eq-ok (c ∷ cs) m h e = cc

fail_if_empty-nonempty :
    (certs : List Bytes) (m : TlsMessage) → certs ≢ [] → fail_if_empty certs m ≡ ok tt
fail_if_empty-nonempty [] m h = absurd (h refl)
fail_if_empty-nonempty (c ∷ cs) m h = refl

ok_or-eq-ok : (o : Option Bytes) (m : TlsMessage) {a : Bytes} → ok_or o m ≡ ok a → o ≡ some a
ok_or-eq-ok none m h = absurd (cc)
ok_or-eq-ok (some a) m h = cc

accept_pair-eq-ok : (o : Option Bytes) {u : Unit {0}} → accept_pair o ≡ ok u → o ≡ none
accept_pair-eq-ok none h = refl
accept_pair-eq-ok (some why) h = absurd (cc)

module _ (pem : Pem) where
  -- An acceptor is made exactly when both files open, the first holds certificates only, at least
  -- one, the second holds a key, and rustls takes the pair; it is made of these certificates and
  -- this key.
  pub load_tls_acceptor_iff :
      (config : TlsConfig) (acceptor : TlsAcceptor)
      → (load_tls_acceptor pem config ≡ ok acceptor) ↔ (
          (cert_file : Bytes) × (key_file : Bytes) × (pem.open_file config.cert ≡ good cert_file)
          × (pem.open_file config.key ≡ good key_file)
          × (pem.certs cert_file ≡ map good acceptor.certs)
          × (acceptor.certs ≢ [])
          × (pem.private_key key_file ≡ good (some acceptor.key))
          × (pem.with_single_cert acceptor.certs acceptor.key ≡ none))
  unfolding load_tls_acceptor
  load_tls_acceptor_iff config acceptor = (
    λ h.
        let (cert_file, e1, h1) =
          bind-eq-ok (map_err (pem.open_file config.cert) (open_cert_failed config.cert)) _ h in
        let (key_file, e2, h2) =
          bind-eq-ok (map_err (pem.open_file config.key) (open_key_failed config.key)) _ h1 in
        let (certs, e3, h3) =
          bind-eq-ok (map_err (collect (pem.certs cert_file)) parse_certs_failed) _ h2 in
        let (_, e4, h4) = bind-eq-ok (fail_if_empty certs (no_certificates config.cert)) _ h3 in
        let (found, e5, h5) =
          bind-eq-ok (map_err (pem.private_key key_file) parse_key_failed) _ h4 in
        let (key, e6, h6) = bind-eq-ok (ok_or found (no_private_key config.key)) _ h5 in
        let (_, e7, h7) = bind-eq-ok (accept_pair (pem.with_single_cert certs key)) _ h6 in
        let same = ok_injective _ acceptor h7 in
        (
          cert_file,
          key_file,
          map_err-eq-ok (pem.open_file config.cert) (open_cert_failed config.cert) e1,
          map_err-eq-ok (pem.open_file config.key) (open_key_failed config.key) e2,
          collect→map (pem.certs cert_file) certs
                (map_err-eq-ok (collect (pem.certs cert_file)) parse_certs_failed e3)
              ∙ ap (λ a. map good a.certs) same,
          λ none_left.
              fail_if_empty-eq-ok certs (no_certificates config.cert) e4
                (ap (λ a. a.certs) same ∙ none_left),
          map_err-eq-ok (pem.private_key key_file) parse_key_failed e5
              ∙ ap good (ok_or-eq-ok found (no_private_key config.key) e6)
              ∙ ap (λ a. good (some a.key)) same,
          ap (λ a. pem.with_single_cert a.certs a.key) (sym same)
              ∙ accept_pair-eq-ok (pem.with_single_cert certs key) e7,
        ),
    λ (cert_file, key_file, e, k, c, n, p, w).
        rw
          (
            e,
            k,
            c,
            collect-map {E = IoError} acceptor.certs,
            fail_if_empty-nonempty acceptor.certs (no_certificates config.cert) n,
            p,
            w,
          )
          refl,
  )
