-- ===== src/Config/File/Load.antt =====
-- What `loadConfig` returns, and what a second run makes of the file that the first one leaves.
use priority_http_server.Prelude.{
  ℕ, ◌≡◌, ◌<◌, refl, sym, ap, ◌∙◌, List, Option, none, some, Option-cases, Bool-cases, inl, inr,
  if◌then◌else◌, arith, ◌++◌, subst,
}
use priority_http_server.Prelude.Int.{size_mod}
use priority_http_server.Prelude.Text.{Text, codes, text_eq_refl}
use priority_http_server.Json.{Json}
use priority_http_server.Config.{Config, default_config, at_least_one_thread, to_json, from_json}
use priority_http_server.Config.RoundTrip.{from_json-to_json, default_config-Fits}
use priority_http_server.Config.Arguments.{from_args}
use priority_http_server.Config.Arguments.Threads.{from_args_total}
use priority_http_server.Config.File.{
  Rights, Files, config_path, put, rename, write_default, apply_args, create_config, read_config,
  load_found, load_config_at, load_config,
}

module _ (json : Json) where
  -- The configuration that the command line changes: the one of the file, where there is one that
  -- can be opened and parsed, else the defaults.
  unfoldable pub base_config : Rights → ℕ → Text → Files json → Config
  base_config rights hardware_concurrency path files = elim (files path) [
    | none ↦ default_config hardware_concurrency
    | some file ↦
        if rights.readable path
        then elim (json.read file) [
          | none ↦ default_config hardware_concurrency
          | some j ↦ from_json json hardware_concurrency j
        ]
        else default_config hardware_concurrency
  ]

  apply_args_lem :
      (hardware_concurrency : ℕ) (args : List Text) (c : Config)
      → apply_args json hardware_concurrency args c ≡ from_args c args
  unfolding apply_args
  apply_args_lem hardware_concurrency args c = elim (Option-cases (from_args c args)) [
    | inl e ↦ rw (apply_args, e) (from_args_total c (default_config hardware_concurrency) args e)
    | inr (d, e) ↦ rw (apply_args, e) refl
  ]

  load_found_lem :
      (rights : Rights) (hardware_concurrency : ℕ) (path : Text) (args : List Text)
      (files : Files json)
      → (load_found json rights hardware_concurrency path args files).config
        ≡ from_args (base_config rights hardware_concurrency path files) args
  unfolding load_found read_config create_config base_config
  load_found_lem rights hardware_concurrency path args files = elim (Option-cases (files path)) [
    | inl e ↦ ground (arith, e)
    | inr (file, e) ↦ elim (Option-cases (json.read file)) [
      | inl u ↦ ground (arith, e, u)
      | inr (j, u) ↦ ground (
        arith,
        e,
        u,
        apply_args_lem hardware_concurrency args (from_json json hardware_concurrency j),
      )
    ]
  ]

  -- `loadConfig` throws where the system cannot say whether the file is there. Elsewhere it returns
  -- what `fromArgs` makes of the file's configuration, or of the defaults where there is no file, it
  -- cannot be opened or it does not parse, and throws exactly where `fromArgs` refuses the command
  -- line, whatever the file holds.
  pub load_config_lem :
      (rights : Rights) (hardware_concurrency : ℕ) (args : List Text) (files : Files json)
      → (load_config json rights hardware_concurrency args files).config ≡ (
          if rights.findable (config_path args)
          then from_args (base_config rights hardware_concurrency (config_path args) files) args
          else none)
  unfolding load_config load_config_at
  load_config_lem rights hardware_concurrency args files =
      let path = config_path args in
      elim (Bool-cases (rights.findable path)) [
        | inl e ↦ rw e (load_found_lem rights hardware_concurrency path args files)
        | inr e ↦ rw e refl
      ]

  put-same :
      (path : Text) (file : Option json.File) (files : Files json)
      → put json path file files path ≡ file
  unfolding put
  put-same path file files = rw (put, text_eq_refl path) refl

  at_least_one_thread-default_config :
      (n : ℕ) → 0 < n → at_least_one_thread (default_config n) ≡ default_config n
  unfolding at_least_one_thread default_config
  at_least_one_thread-default_config n h = ground arith

  -- A file with the defaults stands for the defaults.
  written_default :
      (n : ℕ)
      → 0 < n
      → n < size_mod
      → from_json json n (to_json json (default_config n)) ≡ default_config n
  written_default n positive small =
      from_json-to_json json n (default_config n) (default_config-Fits n small)
      ∙ at_least_one_thread-default_config n positive

  read_default :
      (n : ℕ)
      → json.read (json.write (to_json json (default_config n)))
        ≡ some (to_json json (default_config n))
  unfolding to_json
  read_default n = json.read-write _

  base_config-none :
      (rights : Rights) (n : ℕ) (path : Text) (files : Files json)
      → files path ≡ none
      → base_config rights n path files ≡ default_config n
  unfolding base_config
  base_config-none rights n path files e = ground (arith, e)

  base_config-write_default :
      (rights : Rights) (n : ℕ) (path : Text) (files : Files json)
      → 0 < n
      → n < size_mod
      → base_config rights n path files ≡ default_config n
      → base_config rights n path (write_default json rights n path files) ≡ default_config n
  unfolding base_config write_default
  base_config-write_default rights n path files positive small h =
      let file = json.write (to_json json (default_config n)) in
      ground (
        arith,
        h,
        put-same path (some file) files,
        read_default n,
        written_default n positive small,
      )

  base_config-rename :
      (rights : Rights) (n : ℕ) (path target : Text) (files : Files json)
      → base_config rights n path files ≡ default_config n
      → base_config rights n path (rename json rights path target files) ≡ default_config n
  unfolding rename
  base_config-rename rights n path target files h = elim (Bool-cases (rights.renamable path)) [
    | inl e ↦
        rw (rename, e)
          (base_config-none rights n path _
            (put-same path none (put json target (files path) files)))
    | inr e ↦ rw (rename, e) h
  ]

  -- A run keeps the configuration that the file stands for.
  base_config-load_found :
      (rights : Rights) (n : ℕ) (path : Text) (args : List Text) (files : Files json)
      → 0 < n
      → n < size_mod
      → base_config rights n path (load_found json rights n path args files).files
        ≡ base_config rights n path files
  unfolding load_found read_config create_config base_config
  base_config-load_found rights n path args files positive small =
      let written =
        λ (fs : Files json). base_config-write_default rights n path fs positive small in
      elim (Option-cases (files path)) [
        | inl e ↦ ground (arith, e, written files)
        | inr (file, e) ↦ elim (Bool-cases (rights.readable path)) [
          | inl r ↦ elim (Option-cases (json.read file)) [
            | inl u ↦
                let target = path ++ codes ".broken" in
                ground (
                  arith,
                  e,
                  r,
                  u,
                  base_config-rename rights n path target files,
                  written (rename json rights path target files),
                )
            | inr (j, u) ↦ ground (arith, e, r, u)
          ]
          | inr r ↦ ground (arith, e, r, written files)
        ]
      ]

  base_config-load_config_at :
      (rights : Rights) (n : ℕ) (path : Text) (args : List Text) (files : Files json)
      → 0 < n
      → n < size_mod
      → base_config rights n path (load_config_at json rights n path args files).files
        ≡ base_config rights n path files
  unfolding load_config_at
  base_config-load_config_at rights n path args files positive small =
      elim (Bool-cases (rights.findable path)) [
        | inl e ↦ rw e (base_config-load_found rights n path args files positive small)
        | inr e ↦ rw e refl
      ]

  -- A run of `loadConfig` does not change what a later run returns, whatever file it found and
  -- whatever it wrote or renamed, if both name the same file and the system reports between 1 and
  -- 2^64 - 1 processors.
  pub load_config_again :
      (rights : Rights) (n : ℕ) (args later : List Text) (files : Files json)
      → 0 < n
      → n < size_mod
      → config_path later ≡ config_path args
      → (load_config json rights n later (load_config json rights n args files).files).config
        ≡ (load_config json rights n later files).config
  unfolding load_config
  load_config_again rights n args later files positive small same =
      load_config_lem rights n later _
      ∙ ap (λ c. if rights.findable (config_path later) then from_args c later else none)
          (subst
            (λ path.
              base_config rights n path
                (load_config_at json rights n (config_path args) args files).files
              ≡ base_config rights n path files)
            (sym same)
            (base_config-load_config_at rights n (config_path args) args files positive small))
      ∙ sym (load_config_lem rights n later files)
