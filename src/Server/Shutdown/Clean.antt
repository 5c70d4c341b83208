-- ===== src/Server/Shutdown/Clean.antt =====
-- That a shutdown can come to its end.
use mathlib.Core.List.{append_assoc, append-nil}
use peregrine_proxy.Base.{
  ℕ, zero, suc, ◌+◌, ◌≡◌, refl, sym, ap, ◌∙◌, arith, List, [], ◌∷◌, ◌++◌, All, All-append,
}
use peregrine_proxy.Server.Shutdown.{
  AcceptLoop, selecting, woken, stopped, listening, joining, drained, Server, join_phase, notify,
  notify_waiters, IsStopped, finish, stop, ctrl_c, join, Steps, here, next,
}

pub Steps-trans : {s t u : Server} → Steps s t → Steps t u → Steps s u
Steps-trans first here = first
Steps-trans first (next rest step) = next (Steps-trans first rest) step

-- The fields that a stretch of the shutdown leaves as they are.
abbrev SameLoops : Server → Server → Type 0
SameLoops s t =
    (t.max_conn ≡ s.max_conn) × (t.loops ≡ s.loops) × (t.phase ≡ s.phase) × (t.tunnels ≡ s.tunnels)

-- All active tasks can end.
finish_tasks :
    (n : ℕ) (s : Server)
    → s.active ≡ n
    → (t : Server) × Steps s t × SameLoops s t × (t.active ≡ 0) × (t.available ≡ s.available + n)
finish_tasks zero s e = (s, here, (refl, refl, refl, refl), e, omega arith)
finish_tasks (suc n) s e =
    let after : Server = record s { active = n; available = suc s.available } in
    let (t, steps, same, none, freed) = finish_tasks n after refl in
    (t, Steps-trans (next here (finish n e)) steps, same, none, omega arith)

abbrev IsWoken : AcceptLoop → Type 0
IsWoken l = l ≡ woken

abbrev SamePermits : Server → Server → Type 0
SamePermits s t =
    (t.max_conn ≡ s.max_conn)
    × (t.active ≡ s.active)
    × (t.available ≡ s.available)
    × (t.phase ≡ s.phase)
    × (t.tunnels ≡ s.tunnels)

-- All loops that have been woken can stop.
stop_loops :
    (before ls : List AcceptLoop) (s : Server)
    → s.loops ≡ before ++ ls
    → All IsStopped before
    → All IsWoken ls
    → (t : Server) × Steps s t × SamePermits s t × All IsStopped t.loops
stop_loops before [] s e b h =
    (s, here, (refl, refl, refl, refl, refl), rw (e ∙ append-nil before) b)
stop_loops before (l ∷ ls) s e b h =
    let after : Server = record s { loops = before ++ stopped ∷ ls } in
    let (t, steps, same, done) =
      stop_loops (before ++ stopped ∷ []) ls after (sym (append_assoc before (stopped ∷ []) ls))
        (All-append IsStopped before (stopped ∷ []) b (refl, tt)) h.1 in
    (t, Steps-trans (next here (stop before ls (rw h.0 at e))) steps, same, done)

notified-All :
    (ls : List AcceptLoop) → All (λ l. l ≡ selecting) ls → All IsWoken (notify_waiters ls)
unfolding notify_waiters
notified-All [] h = tt
notified-All (l ∷ ls) h = (ap notify h.0, notified-All ls h.1)

join_idle : (s : Server) → s.available ≡ s.max_conn → join_phase s ≡ drained
unfolding join_phase
join_idle s e = ground arith

-- The way to the end leaves the tunnels alone.
pub drains_beside_tunnels :
    (s : Server)
    → s.phase ≡ listening
    → All (λ l. l ≡ selecting) s.loops
    → s.available + s.active ≡ s.max_conn
    → (t : Server) × Steps s t × (t.phase ≡ drained) × (t.active ≡ 0) × (t.tunnels ≡ s.tunnels)
drains_beside_tunnels s p h balanced =
    let signalled : Server = record s { phase = joining; loops = notify_waiters s.loops } in
    let (stopped_all, stops, kept, over) =
      stop_loops [] (notify_waiters s.loops) signalled refl tt (notified-All s.loops h) in
    let (idle, ends, same, none, freed) = finish_tasks stopped_all.active stopped_all refl in
    (
      record idle { phase = join_phase idle },
      next (Steps-trans (Steps-trans (next here (ctrl_c p)) stops) ends)
          (join (same.2 ∙ kept.3) (rw same.1 over)),
      join_idle idle (omega (arith, same.0, kept.0, kept.1, kept.2, freed, balanced)),
      none,
      same.3 ∙ kept.4,
    )

-- If every accept loop is in `select!` when the shutdown signal comes, the server can reach the end
-- at which it reports every connection drained: the loops stop and the tasks with a permit end.
pub ctrl_c_drains :
    (s : Server)
    → s.phase ≡ listening
    → All (λ l. l ≡ selecting) s.loops
    → s.available + s.active ≡ s.max_conn
    → (t : Server) × Steps s t × (t.phase ≡ drained) × (t.active ≡ 0)
ctrl_c_drains s p h balanced =
    let (t, steps, d, none, same) = drains_beside_tunnels s p h balanced in (t, steps, d, none)
