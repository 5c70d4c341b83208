-- ===== src/Startup/Main.antt =====
-- src/main.rs: `main`, and `run` of src/server.rs up to the point where it waits for ctrl-c.
pub mod Waits
use peregrine_proxy.Base.{Option, List}
use peregrine_proxy.Base.Text.{Bytes}
use peregrine_proxy.Config.{AppConfig}
use peregrine_proxy.Error.{IoError}
use peregrine_proxy.Startup.{
  AnyhowError, AnyhowResult, ok, err, Files, CliArgs, load_from_file, override, Subscriber,
  init_logging,
}
use peregrine_proxy.Startup.Tls.{Pem}
use peregrine_proxy.Startup.Listen.{Listener, Launch, listen_all}
use peregrine_proxy.Startup.Reload.{World, start_world}

-- What the program finds: the files, the filter in `RUST_LOG` if it is set and valid, what binding
-- an address gives, and the files of certificates.
pub record System : Type 0 where
  pub files : Files
  pub rust_log : Option Bytes
  pub bind : Bytes → Option IoError
  pub pem : Pem

-- `run` waits, or it has ended with an error; the listeners are the ones that run.
pub data Run : Type 0 where
  waiting : List Listener → World → Run
  ended : List Listener → AnyhowError → Run

abbrev pub run_result : AppConfig → Launch → AnyhowResult (Unit {0}) → Run
run_result config launch (ok u) = waiting launch.listeners (start_world config)
run_result config launch (err e) = ended launch.listeners e

-- `main` ends before the log is there, or it has the log and runs.
pub data Process : Type 0 where
  unloaded : AnyhowError → Process
  running : Subscriber → Run → Process

module _ (system : System) where
  unfoldable pub run : AppConfig → Run
  run config =
      let launch = listen_all system.bind system.pem config.server.listen in
      run_result config launch launch.result

  abbrev pub after_load : CliArgs → AnyhowResult AppConfig → Process
  after_load args (ok config) =
      running (init_logging system.rust_log (override config.logging args.log_level)) (run config)
  after_load args (err e) = unloaded e

  unfoldable pub main : CliArgs → Process
  unfolding run
  main args = after_load args (load_from_file system.files args.config)
