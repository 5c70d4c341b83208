-- ===== src/Server/Task/Streams.antt =====
-- What a listener with TLS serves.
use peregrine_proxy.Base.{◌≡◌, ◌↔◌, refl, ap, ◌∙◌, some}
use peregrine_proxy.Stream.{Conn, Outcome, done, fail, hung}
use peregrine_proxy.Network.{Network}
use peregrine_proxy.Startup.Tls.{TlsAcceptor}
use peregrine_proxy.Server.{ProxyStream, tls, protocol_detected, handle_connection}
use peregrine_proxy.Server.Task.{served, wrapped, proxy_stream, handle, serve_connection}

served_injective : (a b : Conn) → served a ≡ served b → a ≡ b
served_injective a b h = cc

done_injective : (a b : Conn) → ◌≡◌ {A = Outcome Conn} (done a) (done b) → a ≡ b
done_injective a b h = cc

module _ (handshake : TlsAcceptor → Conn → Outcome Conn) (net : Network)
    (handle_http : ProxyStream → Conn) where
  handle-wrapped_iff :
      (o : Outcome Conn) (c : Conn)
      → (handle handshake net handle_http (wrapped o) ≡ served c)
        ↔ ((inner : Conn) × (o ≡ done inner) × (handle_http (tls inner) ≡ c))
  unfolding handle_connection protocol_detected wrapped
  handle-wrapped_iff (done inner) c = (
    λ h. (inner, refl, served_injective (handle_http (tls inner)) c h),
    λ (x, e, k). ap (λ s. served (handle_http (tls s))) (done_injective inner x e) ∙ ap served k,
  )
  handle-wrapped_iff (fail e) c = (λ h. absurd (cc), λ (x, f, k). absurd (cc))
  handle-wrapped_iff hung c = (λ h. absurd (cc), λ (x, f, k). absurd (cc))

  -- A listener with a certificate serves a connection exactly when the TLS handshake ends well, and
  -- then by the HTTP handler on the stream inside TLS, whatever protocol its client speaks and
  -- whatever protocol it is configured for.
  pub serve_connection_tls :
      (acceptor : TlsAcceptor) (stream c : Conn)
      → (serve_connection handshake net handle_http (some acceptor) stream ≡ served c) ↔ (
          (inner : Conn) × (handshake acceptor stream ≡ done inner) × (handle_http (tls inner) ≡ c))
  unfolding serve_connection proxy_stream
  serve_connection_tls acceptor stream c = handle-wrapped_iff (handshake acceptor stream) c
