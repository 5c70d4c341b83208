-- ===== src/Startup/Reload/Isolated.antt =====
-- What a reload changes, and what it does not.
use peregrine_proxy.Base.{suc, List, [], ◌∷◌, ◌++◌, ◌≡◌, refl, ◌∙◌, ◌≢◌, All, All-append, inl, inr}
use peregrine_proxy.Base.Text.{Bytes}
use peregrine_proxy.Config.{AppConfig}
use peregrine_proxy.Server.Shutdown.{Server, Step, Steps, start}
use peregrine_proxy.Server.Shutdown as Shutdown
use peregrine_proxy.Startup.{AnyhowError, ok, err, AnyhowResult-cases, Files, load_from_file}
use peregrine_proxy.Startup.Reload.{
  ReloadLog, reloaded, load_failed, update_failed, World, on_sighup, start_world, serve, sighup,
  Moves, here, next,
}

-- The newest configuration that could be loaded; the signals stand newest first.
unfoldable pub last_good : Bytes → AppConfig → List Files → AppConfig
last_good path config [] = config
last_good path config (files ∷ older) = elim (load_from_file files path) [
  | ok new_config ↦ new_config
  | err e ↦ last_good path config older
]

last_good_ok :
    (path : Bytes) (config new_config : AppConfig) (files : Files) (older : List Files)
    → load_from_file files path ≡ ok new_config
    → new_config ≡ last_good path config (files ∷ older)
unfolding last_good
last_good_ok path config new_config files older e = rw (e, last_good) refl

last_good_err :
    (path : Bytes) (config : AppConfig) (files : Files) (older : List Files) (x : AnyhowError)
    → load_from_file files path ≡ err x
    → last_good path config older ≡ last_good path config (files ∷ older)
unfolding last_good
last_good_err path config files older x e = rw (e, last_good) refl

-- The files at each signal of a run, the newest first.
unfoldable pub signals : {path : Bytes} {w u : World} → Moves path w u → List Files
signals here = []
signals (next moves (serve step)) = signals moves
signals (next moves (sighup files)) = files ∷ signals moves

abbrev pub Loaded : ReloadLog → Type 0
Loaded line = line ≢ update_failed

-- What every move keeps: the receiver is alive, and no update of the channel has failed.
abbrev pub Open : World → Type 0
Open w = (w.watch.receivers ≡ 1) × All Loaded w.log

on_sighup_ok :
    (path : Bytes) (files : Files) (w : World) (new_config : AppConfig)
    → w.watch.receivers ≡ 1
    → load_from_file files path ≡ ok new_config
    → on_sighup path files w ≡ record w {
      watch = record w.watch { value = new_config; version = suc w.watch.version };
      log = w.log ++ reloaded ∷ [];
    }
unfolding on_sighup
on_sighup_ok path files w new_config h e = rw (e, h) refl

on_sighup_err :
    (path : Bytes) (files : Files) (w : World) (e : AnyhowError)
    → load_from_file files path ≡ err e
    → on_sighup path files w ≡ record w { log = w.log ++ load_failed e ∷ [] }
unfolding on_sighup
on_sighup_err path files w e h = rw h refl

-- Whatever the signals, the clients and the files do: the channel holds the newest configuration
-- that could be loaded, so a reload that fails keeps the one before; no update fails; and the
-- server is one that the first configuration alone reaches, so no reload changes its listeners,
-- its limit or a connection.
pub reload_isolated :
    (path : Bytes) (config : AppConfig) (w : World) (moves : Moves path (start_world config) w)
    → (w.watch.value ≡ last_good path config (signals moves))
      × Open w
      × Steps (start config) w.server
unfolding last_good signals start_world
reload_isolated path config w here = (refl, (refl, tt), Shutdown.Steps.here)
reload_isolated path config w (next {t} moves (serve step)) =
    let (v, o, steps) = reload_isolated path config t moves in
    (v, o, Shutdown.Steps.next steps step)
reload_isolated path config w (next {t} moves (sighup files)) =
    let (v, (r, l), steps) = reload_isolated path config t moves in
    elim (AnyhowResult-cases (load_from_file files path)) [
      | inl (new_config, e) ↦ rw (on_sighup_ok path files t new_config r e) (
        last_good_ok path config new_config files (signals moves) e,
        (r, All-append Loaded t.log _ l ((λ e. cc), tt)),
        steps,
      )
      | inr (x, e) ↦ rw (on_sighup_err path files t x e) (
        v ∙ last_good_err path config files (signals moves) x e,
        (r, All-append Loaded t.log _ l ((λ e. cc), tt)),
        steps,
      )
    ]
