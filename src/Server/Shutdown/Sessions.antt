-- ===== src/Server/Shutdown/Sessions.antt =====
-- What the server keeps to about sessions and tunnels, without loops, permits and signals, and that
-- every run of it does.
use peregrine_proxy.Base.{ℕ, suc, ◌<◌, ◌≡◌}
use peregrine_proxy.Server.Shutdown.{Phase, listening, joining, draining, drained, expired, Server}

-- New sessions may begin; none begins and the last ones are waited for; all have ended; or the
-- waiting was given up.
pub data Stage : Type 0 where
  accepting closing closed forced : Stage

pub record Sessions : Type 0 where
  pub serving : ℕ
  pub tunnels : ℕ
  pub stage : Stage

-- At most `limit` sessions at once, no new one after the closing, and a clean end only when none
-- is left. A session may leave a tunnel behind; tunnels are neither limited nor waited for.
pub data Turn (limit : ℕ) (s : Sessions) : Sessions → Type 0 where
  begin :
      s.stage ≡ accepting → s.serving < limit → Turn limit s (record s { serving = suc s.serving })
  leave : (n : ℕ) → s.serving ≡ suc n → Turn limit s (record s { serving = n })
  detach : (n : ℕ) → s.serving ≡ suc n → Turn limit s (record s { tunnels = suc s.tunnels })
  tunnel_over : (n : ℕ) → s.tunnels ≡ suc n → Turn limit s (record s { tunnels = n })
  close : s.stage ≡ accepting → Turn limit s (record s { stage = closing })
  complete : s.stage ≡ closing → s.serving ≡ 0 → Turn limit s (record s { stage = closed })
  give_up : s.stage ≡ closing → Turn limit s (record s { stage = forced })

pub data Turns (limit : ℕ) (s : Sessions) : Sessions → Type 0 where
  still : Turns limit s s
  then : {t u : Sessions} → Turns limit s t → Turn limit t u → Turns limit s u

unfoldable pub stage_of : Phase → Stage
stage_of listening = accepting
stage_of joining = accepting
stage_of draining = closing
stage_of drained = closed
stage_of expired = forced

-- The server as its sessions.
unfoldable pub view : Server → Sessions
view s = record { serving = s.active; tunnels = s.tunnels; stage = stage_of s.phase }
