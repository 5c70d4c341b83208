-- ===== src/Startup/Main/Waits.antt =====
-- What holds when the program waits for ctrl-c.
use peregrine_proxy.Base.{
  Option, none, some, List, [], ◌∷◌, map, length, ◌≡◌, refl, ap, sym, ◌∙◌, inl, inr, ℕ, zero, suc,
  replicate,
}
use peregrine_proxy.Base.Text.{Bytes}
use peregrine_proxy.Config.{AppConfig, ListenConfig}
use peregrine_proxy.Server.Shutdown.{start, selecting}
use peregrine_proxy.Startup.{
  AnyhowError, AnyhowResult, AnyhowResult-cases, ok, err, CliArgs, load_from_file, override,
  Subscriber, init_logging, Filter, from_env, from_level,
}
use peregrine_proxy.Startup.Listen.{Listener, Launch, listen, listen_all, listen_all_lem}
use peregrine_proxy.Startup.Reload.{World, start_world}
use peregrine_proxy.Startup.Main.{
  System, Run, run_result, after_load, waiting, run, main, unloaded, running,
}

-- The filter that the documentation of the command line promises, unless `RUST_LOG` has one.
unfoldable pub level : Option Bytes → Option Bytes → Bytes → Filter
level (some directives) cli configured = from_env directives
level none (some cli) configured = from_level cli
level none none configured = from_level configured

init_logging-level :
    (env cli : Option Bytes) (config : AppConfig)
    → (init_logging env (override config.logging cli)).filter ≡ level env cli config.logging.level
unfolding level init_logging
init_logging-level (some directives) (some l) config = refl
init_logging-level (some directives) none config = refl
init_logging-level none (some l) config = refl
init_logging-level none none config = refl

length-map {ℓ κ} :
    {A : Type ℓ} {B : Type κ} (f : A → B) (xs : List A) → length (map f xs) ≡ length xs
length-map f [] = refl
length-map f (x ∷ xs) = ap suc (length-map f xs)

length-replicate {ℓ} : {A : Type ℓ} (n : ℕ) (a : A) → length (replicate n a) ≡ n
length-replicate zero a = refl
length-replicate (suc n) a = ap suc (length-replicate n a)

waiting_parts :
    (config : AppConfig) (launch : Launch) (r : AnyhowResult (Unit {0})) {listeners : List Listener}
    {w : World}
    → run_result config launch r ≡ waiting listeners w
    → (r ≡ ok tt) × (launch.listeners ≡ listeners) × (start_world config ≡ w)
waiting_parts config launch (ok u) h = (refl, cc, cc)
waiting_parts config launch (err e) h = absurd (cc)

ok_err : {x : AnyhowError} → ok (tt {0}) ≡ err x → ⊥
ok_err h = cc

-- A run that waits has started every listener of its configuration.
run_waiting :
    (system : System) (config : AppConfig) {listeners : List Listener} {w : World}
    → run system config ≡ waiting listeners w
    → (map (listen system.bind system.pem) config.server.listen ≡ map ok listeners)
      × (start_world config ≡ w)
unfolding run
run_waiting system config h =
    let launch = listen_all system.bind system.pem config.server.listen in
    let (r, same, world) = waiting_parts config launch launch.result h in
    elim (listen_all_lem system.bind system.pem config.server.listen) [
      | inl (_, k) ↦ (k ∙ ap (map ok) same, world)
      | inr (before, failing, after, e, split, f, k, failed) ↦ absurd (ok_err (sym r ∙ failed))
    ]

same_length :
    (configs : List ListenConfig) (f : ListenConfig → AnyhowResult Listener)
    (listeners : List Listener)
    → map f configs ≡ map ok listeners
    → length configs ≡ length listeners
same_length configs f listeners k =
    sym (length-map f configs) ∙ ap length k ∙ length-map ok listeners

loops_started : (config : AppConfig) → length (start config).loops ≡ length config.server.listen
unfolding start
loops_started config = length-replicate (length config.server.listen) selecting

parts : (s t : Subscriber) (r q : Run) → running s r ≡ running t q → (s ≡ t) × (r ≡ q)
parts s t r q h = (cc, cc)

-- When the program waits for ctrl-c, the file of its configuration was read, every listener of it
-- runs, in its order, each with one accept loop, and the log takes the filter of `RUST_LOG` if
-- there is one, or else the level of the command line, or else the one of the file.
pub main_waits :
    (system : System) (args : CliArgs) (subscriber : Subscriber) (listeners : List Listener)
    (w : World)
    → main system args ≡ running subscriber (waiting listeners w)
    → (config : AppConfig) × (load_from_file system.files args.config ≡ ok config)
      × (map (listen system.bind system.pem) config.server.listen ≡ map ok listeners)
      × (w ≡ start_world config)
      × (length w.server.loops ≡ length listeners)
      × (subscriber.filter ≡ level system.rust_log args.log_level config.logging.level)
unfolding main start_world
main_waits system args subscriber listeners w h =
    elim (AnyhowResult-cases (load_from_file system.files args.config)) [
      | inl (config, e) ↦
          let (s, r) =
            parts _ subscriber _ (waiting listeners w) (sym (ap (after_load system args) e) ∙ h) in
          let (started, world) = run_waiting system config r in
          (
            config,
            e,
            started,
            sym world,
            sym (ap (λ v. length v.server.loops) world)
                ∙ loops_started config
                ∙ same_length config.server.listen (listen system.bind system.pem) listeners
                    started,
            ap (λ v. v.filter) (sym s) ∙ init_logging-level system.rust_log args.log_level config,
          )
      | inr (x, e) ↦ absurd (never (sym (ap (after_load system args) e) ∙ h))
    ]
  where
    never : {x : AnyhowError} {s : Subscriber} {r : Run} → unloaded x ≡ running s r → ⊥
    never h = cc
