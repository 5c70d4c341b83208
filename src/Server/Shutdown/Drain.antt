-- ===== src/Server/Shutdown/Drain.antt =====
-- What the shutdown waits for.
use peregrine_proxy.Base.{ℕ, ◌<◌, ◌≡◌, ◌≢◌, arith, List, [], ◌∷◌, ◌++◌, All}
use peregrine_proxy.Config.{AppConfig}
use peregrine_proxy.Server.Shutdown.{
  AcceptLoop, woken, acquiring, stopped, Phase, listening, joining, draining, drained, expired,
  Server, start, join_phase, Accepting, accept_selecting, accept_woken, IsStopped, Step, accept,
  acquire, finish, upgrade, tunnel_ends, stop, ctrl_c, join, drain, expire, Steps, here, next,
}
use peregrine_proxy.Server.Shutdown.Permits.{Balanced, Balanced-Steps, start-Balanced}

-- The loops have been joined.
abbrev pub IsJoined : Phase → Type 0
IsJoined listening = ⊥
IsJoined joining = ⊥
IsJoined draining = Unit
IsJoined drained = Unit
IsJoined expired = Unit

stopped_at :
    (before after : List AcceptLoop) (l : AcceptLoop)
    → All IsStopped (before ++ l ∷ after)
    → l ≡ stopped
stopped_at [] after l h = h.0
stopped_at (x ∷ before) after l h = stopped_at before after l h.1

-- What holds of every state that the server reaches.
abbrev pub Orderly : Server → Type 0
Orderly s = (IsJoined s.phase → All IsStopped s.loops) × (s.phase ≡ drained → s.active ≡ 0)

module _ (s : Server) (before after : List AcceptLoop) (l : AcceptLoop) where
  -- A loop that has not stopped has not been joined.
  pub not_joined : s.loops ≡ before ++ l ∷ after → l ≢ stopped → Orderly s → IsJoined s.phase → ⊥
  not_joined e running h joined = running (stopped_at before after l (rw e at (h.0 joined)))

Accepting-runs : {l : AcceptLoop} → Accepting l → l ≢ stopped
Accepting-runs accept_selecting e = cc
Accepting-runs accept_woken e = cc

drained-IsJoined : {p : Phase} → p ≡ drained → IsJoined p
drained-IsJoined e = rw e tt

pub join_drained : (s : Server) (max : ℕ) → Balanced max s → join_phase s ≡ drained → s.active ≡ 0
unfolding join_phase
join_drained s max b d = ground arith

Orderly-step :
    {s t : Server} (max : ℕ) → max < 4294967296 → Step s t → Balanced max s → Orderly s → Orderly t
Orderly-step {s = s} max small (accept before after l e a) b h =
    (λ j. absurd (not_joined s before after l e (Accepting-runs a) h j), h.1)
Orderly-step {s = s} max small (acquire before after n e a) b h = (
  λ j. absurd (not_joined s before after acquiring e (λ e. cc) h j),
  λ d. absurd (not_joined s before after acquiring e (λ e. cc) h (drained-IsJoined d)),
)
Orderly-step max small (finish n a) b h = (h.0, λ d. absurd (omega (arith, h.1 d)))
Orderly-step max small (upgrade n a) b h = h
Orderly-step max small (tunnel_ends n a) b h = h
Orderly-step {s = s} max small (stop before after e) b h =
    (λ j. absurd (not_joined s before after woken e (λ e. cc) h j), h.1)
Orderly-step max small (ctrl_c e) b h = (λ j. absurd j, λ d. absurd (cc))
Orderly-step max small (join e a) b h = (λ j. a, join_drained _ max b)
Orderly-step max small (drain e a) b h = (λ j. h.0 (rw e tt), λ d. omega arith)
Orderly-step max small (expire e) b h = (λ j. h.0 (rw e tt), λ d. absurd (cc))

pub start-Orderly : (config : AppConfig) → Orderly (start config)
unfolding start
start-Orderly config = ((λ j. absurd j), (λ d. absurd (cc)))

pub Orderly-Steps :
    {s t : Server} (max : ℕ) → max < 4294967296 → Steps s t → Balanced max s → Orderly s → Orderly t
Orderly-Steps max small here b h = h
Orderly-Steps max small (next steps step) b h =
    Orderly-step max small step (Balanced-Steps max steps b) (Orderly-Steps max small steps b h)

-- When the server reports that all connections are drained, no task holds a permit any more and no
-- listener accepts; for fewer than 2^32 configured connections. Tunnels hold none.
pub drained-idle :
    (config : AppConfig) (t : Server)
    → (start config).max_conn < 4294967296
    → Steps (start config) t
    → t.phase ≡ drained
    → (t.active ≡ 0) × All IsStopped t.loops
drained-idle config t small steps d =
    let h =
      Orderly-Steps (start config).max_conn small steps (start-Balanced config)
        (start-Orderly config) in
    (h.1 d, h.0 (drained-IsJoined d))
