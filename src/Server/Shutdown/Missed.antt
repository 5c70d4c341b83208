-- ===== src/Server/Shutdown/Missed.antt =====
-- Which loops the shutdown reaches.
use peregrine_proxy.Base.{◌≡◌, refl, List, [], ◌∷◌, ◌++◌, All, ◌⊎◌, inl, inr}
use peregrine_proxy.Server.Shutdown.{
  AcceptLoop, selecting, woken, acquiring, stopped, joining, Server, notify_waiters, IsStopped,
  Step, accept, acquire, finish, upgrade, tunnel_ends, stop, ctrl_c, join, drain, expire, Steps,
  here, next,
}

-- A loop that the notification has passed by: it was not in `select!`.
abbrev pub IsMissed : AcceptLoop → Type 0
IsMissed selecting = Unit
IsMissed woken = ⊥
IsMissed acquiring = Unit
IsMissed stopped = ⊥

abbrev pub AnyMissed : List AcceptLoop → Type 0
AnyMissed [] = ⊥
AnyMissed (l ∷ ls) = IsMissed l ⊎ AnyMissed ls

replace_missed :
    (before after : List AcceptLoop) (x y : AcceptLoop)
    → (IsMissed x → IsMissed y)
    → AnyMissed (before ++ x ∷ after)
    → AnyMissed (before ++ y ∷ after)
replace_missed [] after x y f (inl h) = inl (f h)
replace_missed [] after x y f (inr h) = inr h
replace_missed (l ∷ before) after x y f (inl h) = inl h
replace_missed (l ∷ before) after x y f (inr h) = inr (replace_missed before after x y f h)

missed_runs : (ls : List AcceptLoop) → AnyMissed ls → All IsStopped ls → ⊥
missed_runs [] h a = absurd h
missed_runs (selecting ∷ ls) (inl h) a = cc
missed_runs (acquiring ∷ ls) (inl h) a = cc
missed_runs (woken ∷ ls) (inl h) a = absurd h
missed_runs (stopped ∷ ls) (inl h) a = absurd h
missed_runs (l ∷ ls) (inr h) a = missed_runs ls h a.1

-- The server waits for its loops, and one of them waits for nothing that will come.
abbrev pub IsStuck : Server → Type 0
IsStuck s = (s.phase ≡ joining) × AnyMissed s.loops

IsStuck-step : {s t : Server} → Step s t → IsStuck s → IsStuck t
IsStuck-step (accept before after l e a) h =
    (h.0, replace_missed before after l acquiring (λ m. tt) (rw e at h.1))
IsStuck-step (acquire before after n e a) h =
    (h.0, replace_missed before after acquiring selecting (λ m. tt) (rw e at h.1))
IsStuck-step (finish n a) h = h
IsStuck-step (upgrade n a) h = h
IsStuck-step (tunnel_ends n a) h = h
IsStuck-step (stop before after e) h =
    (h.0, replace_missed before after woken stopped (λ m. m) (rw e at h.1))
IsStuck-step (ctrl_c e) h = absurd (cc)
IsStuck-step {s = s} (join e a) h = absurd (missed_runs s.loops h.1 a)
IsStuck-step (drain e a) h = absurd (cc)
IsStuck-step (expire e) h = absurd (cc)

IsStuck-Steps : {s t : Server} → Steps s t → IsStuck s → IsStuck t
IsStuck-Steps here h = h
IsStuck-Steps (next steps step) h = IsStuck-step step (IsStuck-Steps steps h)

notified_missed :
    (before after : List AcceptLoop) → AnyMissed (notify_waiters (before ++ acquiring ∷ after))
unfolding notify_waiters
notified_missed [] after = inl tt
notified_missed (l ∷ before) after = inr (notified_missed before after)

-- If a loop waits for a permit when the shutdown signal comes, it is never told of it: whatever
-- happens afterwards, the server waits for its loops, and neither drains nor ends by its timeout.
pub ctrl_c_missed :
    (s t : Server) (before after : List AcceptLoop)
    → s.loops ≡ before ++ acquiring ∷ after
    → Steps (record s { phase = joining; loops = notify_waiters s.loops }) t
    → t.phase ≡ joining
ctrl_c_missed s t before after e steps =
    (IsStuck-Steps steps (refl, rw e (notified_missed before after))).0
