-- ===== src/Server/Shutdown/Tunnels.antt =====
-- The tunnels of CONNECT requests, which src/protocol/http_handler.rs spawns without a permit,
-- beside the limit and the shutdown of src/server.rs.
use mathlib.Core.Path.{subst}
use peregrine_proxy.Base.{
  ℕ, zero, suc, ◌≡◌, refl, sym, ap, ◌∙◌, List, [], ◌∷◌, All, length, replicate, arith,
}
use peregrine_proxy.Config.{AppConfig}
use peregrine_proxy.Server.Shutdown.{
  AcceptLoop, selecting, listening, drained, Server, start, accept, accept_selecting, acquire,
  finish, upgrade, Steps, here, next,
}
use peregrine_proxy.Server.Shutdown.Clean.{Steps-trans, drains_beside_tunnels}

-- The server with nothing to do but tunnels.
abbrev resting : ℕ → ℕ → List AcceptLoop → Server
resting max n loops = record {
  max_conn = max;
  available = max;
  active = 0;
  tunnels = n;
  loops = loops;
  phase = listening;
}

-- One connection after the other is accepted, upgraded, and frees its permit.
tunnels_opened :
    (max n : ℕ) (others : List AcceptLoop)
    → Steps (resting (suc max) 0 (selecting ∷ others)) (resting (suc max) n (selecting ∷ others))
tunnels_opened max zero others = here
tunnels_opened max (suc n) others =
    next
      (next
        (next
          (next (tunnels_opened max n others) (accept [] others selecting refl accept_selecting))
          (acquire [] others max refl refl))
        (upgrade 0 refl))
      (finish 0 refl)

selecting_loops : (n : ℕ) → All (λ l. l ≡ selecting) (replicate n selecting)
selecting_loops zero = tt
selecting_loops (suc n) = (refl, selecting_loops n)

start_resting :
    (config : AppConfig) (max listeners : ℕ)
    → (start config).max_conn ≡ suc max
    → length config.server.listen ≡ suc listeners
    → start config ≡ resting (suc max) 0 (selecting ∷ replicate listeners selecting)
unfolding start
start_resting config max listeners limit listens =
    ap (λ m. resting m 0 (replicate (length config.server.listen) selecting)) limit
    ∙ ap (λ k. resting (suc max) 0 (replicate k selecting)) listens

-- Whatever the limit, if it is at least one and there is a listener, any number of tunnels can be
-- open at once, and be left open when the server reports that all connections are drained.
pub tunnels_outlive :
    (config : AppConfig) (n max listeners : ℕ)
    → (start config).max_conn ≡ suc max
    → length config.server.listen ≡ suc listeners
    → (t : Server) × Steps (start config) t × (t.phase ≡ drained) × (t.tunnels ≡ n)
tunnels_outlive config n max listeners limit listens =
    let others = replicate listeners selecting in
    let (t, steps, d, none, same) =
      drains_beside_tunnels (resting (suc max) n (selecting ∷ others)) refl
        (refl, selecting_loops listeners) (omega arith) in
    let opened =
      subst (λ s. Steps s (resting (suc max) n (selecting ∷ others)))
        (sym (start_resting config max listeners limit listens)) (tunnels_opened max n others) in
    (t, Steps-trans opened steps, d, same)
