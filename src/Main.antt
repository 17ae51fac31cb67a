-- ===== src/Main.antt =====
-- `main` (src/main.cpp): the help, the configuration, and the life of a server. What the system does
-- is an argument: the files and the rights on them, whether a worker can be made, what the log file
-- holds, the file system of the static files, whether the server can listen, what happens on its I/O context.
use priority_http_server.Prelude.{
  ℕ, ◌≡◌, ◌≢◌, refl, ◌↔◌, ◌⊎◌, inl, inr, Bool, true, false, List, [], Option, none, some,
  if◌then◌else◌, Bool-cases, Option-cases,
}
use priority_http_server.Prelude.Text.{Text}
use priority_http_server.Json.{Json}
use priority_http_server.Http.{Http}
use priority_http_server.HttpTask.{HttpTask}
use priority_http_server.Config.{Config}
use priority_http_server.Config.Arguments.{has_help_flag}
use priority_http_server.Config.File.{Rights, Files, load_config}
use priority_http_server.Config.Help.{help_lines, print_help}
use priority_http_server.StaticFiles.{FileSystem}
use priority_http_server.Server.Lifecycle.{
  LifeEffect, IoEvent, construct, live, run, run_after, destroy_after,
}
use priority_http_server.Server.Lifecycle.Beginning.{SetupDone, fails, done, setup-SetupDone}
use priority_http_server.Server.{http_server}

pub record Environment : Type 0 where
  pub rights : Rights
  pub hardware_concurrency : ℕ
  pub allocates : ℕ → Bool
  pub log_file : Text → Option (List Text)
  pub file_system : FileSystem
  pub can_listen : Text → ℕ → Bool
  pub events : List IoEvent
  pub abandoned : ℕ

module _ (json : Json) where
  -- The exit code, the standard output of `main` itself, the calls of the server, the files.
  pub record Exit : Type 0 where
    pub code : ℕ
    pub output : Text
    pub effects : List LifeEffect
    pub files : Files json

  -- The server is there: `run`, and its destructor.
  unfoldable pub run_server : Environment → Config → Files json → Exit
  run_server env c files =
      let life =
        live env.file_system (env.can_listen c.bind_address c.port) env.events env.abandoned c in
      record {
        code = if life.threw then 1 else 0;
        output = [];
        effects = life.effects;
        files = files;
      }

  abbrev pub failed : Files json → Exit
  failed files = record { code = 1; output = []; effects = []; files = files }

module _ (json : Json) (http : Http) where
  unfoldable pub start_server : Environment → Config → Files json → Exit json
  unfolding run_server
  start_server env c files =
      elim (construct (HttpTask http) env.allocates (env.log_file c.log_file_path) c) [
        | none ↦ failed json files
        | some parts ↦ run_server json env c files
      ]

  unfoldable pub main : Environment → List Text → Files json → Exit json
  unfolding start_server
  main env args files =
      let loaded = load_config json env.rights env.hardware_concurrency args files in
      if has_help_flag args
      then record { code = 0; output = print_help help_lines; effects = []; files = files }
      else elim loaded.config [
        | none ↦ failed json loaded.files
        | some c ↦ start_server env c loaded.files
      ]

  -- The root of the static files has a canonical path, and the server can listen.
  abbrev pub CanRun : Environment → Config → Type 0
  CanRun env c =
      (env.file_system.weakly_canonical c.static_root ≢ none)
      × (env.can_listen c.bind_address c.port ≡ true)

  -- The parts of the server can be made, and it can run.
  abbrev pub CanServe : Environment → Config → Type 0
  CanServe env c =
      (construct (HttpTask http) env.allocates (env.log_file c.log_file_path) c ≢ none)
      × CanRun env c

  -- There is a configuration, and with it the server can serve.
  abbrev pub Serves : Environment → List Text → Files json → Type 0
  Serves env args files =
      (c : Config) × ((load_config json env.rights env.hardware_concurrency args files).config
        ≡ some c)
      × CanServe env c

  abbrev Code : Exit json → Type 0 → Type 0
  Code e P = ((e.code ≡ 0) ↔ P) × ((e.code ≡ 0) ⊎ (e.code ≡ 1))

  run_after_threw :
      (env : Environment) (c : Config) (r : List LifeEffect × Bool)
      → SetupDone env.file_system c r
      → let life = destroy_after env.abandoned c (
          run_after r
            (env.can_listen c.bind_address c.port)
            env.events
            env.abandoned
            c
            http_server) in
        ((life.threw ≡ false) × CanRun env c) ⊎ ((life.threw ≡ true) × ¬ CanRun env c)
  unfolding run_after destroy_after
  run_after_threw env c _ (fails e) = inr (refl, λ can. absurd (can.0 e))
  run_after_threw env c _ (done root handler e) =
      elim (Bool-cases (env.can_listen c.bind_address c.port)) [
        | inl l ↦ rw l (inl (refl, ((λ n. absurd (cc)), refl)))
        | inr l ↦ rw l (inr (refl, λ can. absurd (cc)))
      ]

  run_server_code :
      (env : Environment) (c : Config) (files : Files json)
      → Code (run_server json env c files) (CanRun env c)
  unfolding run_server live run
  run_server_code env c files = elim (run_after_threw env c _ (setup-SetupDone env.file_system c)) [
    | inl (e, can) ↦ rw e (((λ h. can), λ h. refl), inl refl)
    | inr (e, cannot) ↦ rw e (((λ h. absurd (cc)), λ can. absurd (cannot can)), inr refl)
  ]

  start_server_code :
      (env : Environment) (c : Config) (files : Files json)
      → Code (start_server env c files) (CanServe env c)
  unfolding start_server
  start_server_code env c files =
      let r = run_server_code env c files in
      elim (Option-cases
        (construct (HttpTask http) env.allocates (env.log_file c.log_file_path) c)) [
          | inl n ↦ rw (start_server, n) (((λ h. absurd (cc)), λ s. absurd (s.0 refl)), inr refl)
          | inr (parts, b) ↦
              rw (start_server, b) (((λ h. ((λ d. absurd (cc)), r.0.0 h)), λ s. r.0.1 s.1), r.1)
        ]

  main_without_help :
      (env : Environment) (args : List Text) (files : Files json)
      → let loaded = load_config json env.rights env.hardware_concurrency args files in
        Code
          (elim loaded.config [
            | none ↦ failed json loaded.files
            | some c ↦ start_server env c loaded.files
          ])
          ((false ≡ true) ⊎ Serves env args files)
  main_without_help env args files =
      let loaded = load_config json env.rights env.hardware_concurrency args files in
      elim (Option-cases loaded.config) [
        | inl n ↦ rw n (
          ((λ h. absurd (cc)), λ s. elim s [ inl x ↦ absurd (cc) | inr (c, e, r) ↦ absurd (cc) ]),
          inr refl,
        )
        | inr (c, e) ↦
            let r = start_server_code env c loaded.files in
            rw e (
              (
                (λ h. inr (c, refl, r.0.0 h)),
                λ s. elim s [
                  | inl x ↦ absurd (cc)
                  | inr (d, same, can) ↦ let back : d ≡ c = cc in r.0.1 (rw back at can)
                ],
              ),
              r.1,
            )
      ]

  -- The program exits with 0 exactly when the help is asked for, or when it can find out whether the
  -- file of its configuration is there and the command line does not spoil it, the workers and the
  -- log file of the server can be made, the root of the static files has a canonical path, and the
  -- system lets it listen at its address; and with 1 in every other case. No handler of the I/O
  -- context lets an exception out here, and the system can start every thread.
  pub main_succeeds_iff :
      (env : Environment) (args : List Text) (files : Files json)
      → (((main env args files).code ≡ 0) ↔ ((has_help_flag args ≡ true) ⊎ Serves env args files))
        × (((main env args files).code ≡ 0) ⊎ ((main env args files).code ≡ 1))
  unfolding main
  main_succeeds_iff env args files = elim (Bool-cases (has_help_flag args)) [
    | inl h ↦ rw h (((λ e. inl refl), λ s. refl), inl refl)
    | inr h ↦ rw h (main_without_help env args files)
  ]
