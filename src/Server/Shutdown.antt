-- ===== src/Server/Shutdown.antt =====
-- src/server.rs: `run` and `accept_loop` as a transition system: the loops of all listeners, the
-- permits of the shared semaphore, the tasks that hold one, and the shutdown. A `Notify` without a
-- stored permit wakes only the loops that wait in `select!` when it is called.
pub mod Permits
pub mod Drain
pub mod Missed
pub mod Clean
pub mod Tunnels
pub mod Sessions
use peregrine_proxy.Base.{
  ℕ, suc, ◌-◌, ◌%◌, ◌<◌, ◌≤◌, ◌≡◌, Option, none, some, List, [], ◌∷◌, ◌++◌, All, if◌then◌else◌, ltb,
  replicate, length,
}
use peregrine_proxy.Config.{AppConfig}

-- An accept loop: in `select!`; in `select!` with the shutdown notified; past `accept` and waiting
-- for a permit; or left.
pub data AcceptLoop : Type 0 where
  selecting woken acquiring stopped : AcceptLoop

-- Where `run` stands: it waits for ctrl-c; for the loops; for the permits; or has returned, with
-- all connections drained or after the 30 seconds.
pub data Phase : Type 0 where
  listening joining draining drained expired : Phase

-- `active` is the number of tasks that hold a permit, `tunnels` that of the tasks that
-- `handle_connect` has spawned for a CONNECT request and that have got its upgraded connection: they
-- hold none.
pub record Server : Type 0 where
  pub max_conn : ℕ
  pub available : ℕ
  pub active : ℕ
  pub tunnels : ℕ
  pub loops : List AcceptLoop
  pub phase : Phase

or_default : Option ℕ → ℕ
or_default none = 10000
or_default (some n) = n

-- The state in which `run` begins to wait.
unfoldable pub start : AppConfig → Server
unfolding or_default
start config = record {
  max_conn = or_default config.server.max_connections;
  available = or_default config.server.max_connections;
  active = 0;
  tunnels = 0;
  loops = replicate (length config.server.listen) selecting;
  phase = listening;
}

-- `notify_waiters`.
abbrev pub notify : AcceptLoop → AcceptLoop
notify selecting = woken
notify woken = woken
notify acquiring = acquiring
notify stopped = stopped

unfoldable pub notify_waiters : List AcceptLoop → List AcceptLoop
notify_waiters [] = []
notify_waiters (l ∷ ls) = notify l ∷ notify_waiters ls

-- What follows the joining of the loops: `active_connections > 0`.
unfoldable pub join_phase : Server → Phase
join_phase s = if ltb 0 (s.max_conn - s.available) then draining else drained

-- `select!` may take the accepted connection although the notification is there too.
pub data Accepting : AcceptLoop → Type 0 where
  accept_selecting : Accepting selecting
  accept_woken : Accepting woken

abbrev pub IsStopped : AcceptLoop → Type 0
IsStopped l = l ≡ stopped

-- One step of the server. A failed `accept` changes nothing; a failed TLS handshake ends its task,
-- as the end of a session does. `upgrade` hands a connection over to the task of a tunnel: hyper's
-- connection ends with it, the handler returns, and `finish` frees the permit.
pub data Step (s : Server) : Server → Type 0 where
  accept :
      (before after : List AcceptLoop) (l : AcceptLoop)
      → s.loops ≡ before ++ l ∷ after
      → Accepting l
      → Step s (record s { loops = before ++ acquiring ∷ after })
  acquire :
      (before after : List AcceptLoop) (n : ℕ)
      → s.loops ≡ before ++ acquiring ∷ after
      → s.available ≡ suc n
      → Step s
          (record s { loops = before ++ selecting ∷ after; available = n; active = suc s.active })
  finish :
      (n : ℕ) → s.active ≡ suc n → Step s (record s { active = n; available = suc s.available })
  upgrade : (n : ℕ) → s.active ≡ suc n → Step s (record s { tunnels = suc s.tunnels })
  tunnel_ends : (n : ℕ) → s.tunnels ≡ suc n → Step s (record s { tunnels = n })
  stop :
      (before after : List AcceptLoop)
      → s.loops ≡ before ++ woken ∷ after
      → Step s (record s { loops = before ++ stopped ∷ after })
  ctrl_c :
      s.phase ≡ listening → Step s (record s { phase = joining; loops = notify_waiters s.loops })
  join : s.phase ≡ joining → All IsStopped s.loops → Step s (record s { phase = join_phase s })
  drain :
      s.phase ≡ draining
      → s.max_conn % 4294967296 ≤ s.available
      → Step s (record s { phase = drained })
  expire : s.phase ≡ draining → Step s (record s { phase = expired })

pub data Steps (s : Server) : Server → Type 0 where
  here : Steps s s
  next : {t u : Server} → Steps s t → Step t u → Steps s u
