-- ===== src/Startup/Reload.antt =====
-- src/server.rs: the watch channel of `run` and its task that reloads the configuration on SIGHUP,
-- beside the server of `Server/Shutdown`, as one transition system.
pub mod Isolated
use peregrine_proxy.Base.{ℕ, zero, suc, Option, none, some, List, [], ◌∷◌, ◌++◌, ◌≡◌}
use peregrine_proxy.Base.Text.{Bytes}
use peregrine_proxy.Config.{AppConfig}
use peregrine_proxy.Server.Shutdown.{Server, Step, start}
use peregrine_proxy.Startup.{AnyhowError, AnyhowResult, ok, err, Files, load_from_file, reload}

-- `watch::channel`: the value, how often it was sent, and how many receivers are alive.
pub record Watch : Type 0 where
  pub value : AppConfig
  pub version : ℕ
  pub receivers : ℕ

-- `send` fails, and leaves the value, when no receiver is alive.
abbrev pub send_to : ℕ → Watch → AppConfig → Option Watch
send_to zero watch config = none
send_to (suc n) watch config = some (record watch { value = config; version = suc watch.version })

unfoldable pub send : Watch → AppConfig → Option Watch
send watch config = send_to watch.receivers watch config

-- The lines that the task logs after `SIGHUP received`.
pub data ReloadLog : Type 0 where
  reloaded update_failed : ReloadLog
  load_failed : AnyhowError → ReloadLog

pub record World : Type 0 where
  pub server : Server
  pub watch : Watch
  pub log : List ReloadLog

abbrev pub logged : World → ReloadLog → World
logged w line = record w { log = w.log ++ line ∷ [] }

abbrev pub sent : World → Option Watch → World
sent w none = logged w update_failed
sent w (some watch) = logged (record w { watch = watch }) reloaded

abbrev pub on_reload : World → AnyhowResult AppConfig → World
on_reload w (ok new_config) = sent w (send w.watch new_config)
on_reload w (err e) = logged w (load_failed e)

-- One round of the task's loop, with the files as they are when the signal comes.
unfoldable pub on_sighup : Bytes → Files → World → World
unfolding send
on_sighup path files w = on_reload w (reload files path)

-- What `run` has when it begins to wait: `config_rx` lives as long as `run`, and the server is made
-- of `current_config`, a copy of the value in the channel.
unfoldable pub start_world : AppConfig → World
start_world config = record {
  server = start config;
  watch = record { value = config; version = 0; receivers = 1 };
  log = [];
}

-- A step of the server, or a signal.
pub data Move (path : Bytes) (w : World) : World → Type 0 where
  serve : {t : Server} → Step w.server t → Move path w (record w { server = t })
  sighup : (files : Files) → Move path w (on_sighup path files w)

pub data Moves (path : Bytes) (w : World) : World → Type 0 where
  here : Moves path w w
  next : {t u : World} → Moves path w t → Move path t u → Moves path w u
