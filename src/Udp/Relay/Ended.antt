-- ===== src/Udp/Relay/Ended.antt =====
-- The tasks of listen_for_responses after relay_loop has returned.
use peregrine_proxy.Base.{ℕ, ◌≡◌, refl, true, false, Option, List, [], ◌∷◌, ◌++◌}
use peregrine_proxy.Base.Text.{Bytes}
use peregrine_proxy.Network.{SocketAddr}
use peregrine_proxy.Udp.Relay.{Listener, Relay, response, loop_ends, responds, Steps, here, next}

module _ (lookup_host : Bytes → ℕ → Option SocketAddr) where
  -- A listener goes on after the end of the loop: it still delivers what its socket receives.
  pub outlives :
      (s : Relay) (before after : List Listener) (l : Listener) (payload : Bytes)
      → s.is_open ≡ true
      → s.listeners ≡ before ++ l ∷ after
      → (t : Relay) × Steps lookup_host s t
        × (t.is_open ≡ false)
        × (t.listeners ≡ s.listeners)
        × (t.log ≡ s.log ++ response l payload ∷ [])
  outlives s before after l payload running e = (
    _,
    next (next here (loop_ends running)) (responds before after l payload e),
    refl,
    refl,
    refl,
  )
