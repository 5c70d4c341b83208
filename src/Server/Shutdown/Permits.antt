-- ===== src/Server/Shutdown/Permits.antt =====
-- How many tasks hold a permit at once.
use peregrine_proxy.Base.{ℕ, ◌+◌, ◌≤◌, ◌≡◌, refl, arith}
use peregrine_proxy.Config.{AppConfig}
use peregrine_proxy.Server.Shutdown.{
  Server, start, Step, accept, acquire, finish, upgrade, tunnel_ends, stop, ctrl_c, join, drain,
  expire, Steps, here, next,
}

-- Every permit is free or held by exactly one task.
abbrev pub Balanced : ℕ → Server → Type 0
Balanced max s = (s.max_conn ≡ max) × (s.available + s.active ≡ max)

pub Balanced-step : {s t : Server} (max : ℕ) → Step s t → Balanced max s → Balanced max t
Balanced-step max (accept before after l e a) h = h
Balanced-step max (acquire before after n e a) h = (h.0, omega arith)
Balanced-step max (finish n a) h = (h.0, omega arith)
Balanced-step max (upgrade n a) h = h
Balanced-step max (tunnel_ends n a) h = h
Balanced-step max (stop before after e) h = h
Balanced-step max (ctrl_c e) h = h
Balanced-step max (join e a) h = h
Balanced-step max (drain e a) h = h
Balanced-step max (expire e) h = h

pub Balanced-Steps : {s t : Server} (max : ℕ) → Steps s t → Balanced max s → Balanced max t
Balanced-Steps max here h = h
Balanced-Steps max (next steps step) h = Balanced-step max step (Balanced-Steps max steps h)

pub start-Balanced : (config : AppConfig) → Balanced (start config).max_conn (start config)
unfolding start
start-Balanced config = (refl, omega arith)

-- Whatever the listeners, the clients and the signals do, the tasks that hold a permit and the free
-- permits together are the configured number, so no more tasks hold one at once.
pub active-bounded :
    (config : AppConfig) (t : Server)
    → Steps (start config) t
    → (t.available + t.active ≡ (start config).max_conn) × (t.active ≤ (start config).max_conn)
active-bounded config t steps =
    let h = Balanced-Steps (start config).max_conn steps (start-Balanced config) in
    (h.1, omega arith)
