-- ===== src/Config/File.antt =====
-- `loadConfig` (src/config.cpp): the path of the file, what it may find there, and the file that it
-- leaves. Whether a file is there can be found out or not (an exception), it is there or not, can be
-- read or not, and holds JSON or not.
pub mod Load
use priority_http_server.Prelude.{ℕ, Bool, List, [], ◌∷◌, ◌++◌, Option, none, some, if◌then◌else◌}
use priority_http_server.Prelude.Text.{Text, codes, text_eq}
use priority_http_server.Json.{Json}
use priority_http_server.Config.{Config, default_config, to_json, from_json}
use priority_http_server.Config.Arguments.{from_args, either}

-- The first value of `-c` or `--config` that is there.
unfoldable pub config_path : List Text → Text
unfolding either
config_path [] = codes "config.json"
config_path (arg ∷ []) = codes "config.json"
config_path (arg ∷ value ∷ args) =
    let later = config_path (value ∷ args) in
    if either arg (codes "-c") (codes "--config") then value else later

-- What the operating system allows at a path: `std::filesystem::exists` without an exception, opening
-- it to read and to write, renaming it.
pub record Rights : Type 0 where
  pub findable : Text → Bool
  pub readable : Text → Bool
  pub writable : Text → Bool
  pub renamable : Text → Bool

module _ (json : Json) where
  -- The files by their paths.
  abbrev pub Files : Type 0
  Files = Text → Option json.File

  unfoldable pub put : Text → Option json.File → Files → Files
  put path file files q = if text_eq q path then file else files q

  -- `std::filesystem::rename`, whose failure is caught
  unfoldable pub rename : Rights → Text → Text → Files → Files
  unfolding put
  rename rights path target files =
      if rights.renamable path then put path none (put target (files path) files) else files

  -- A new file with the defaults, where one can be opened.
  unfoldable pub write_default : Rights → ℕ → Text → Files → Files
  unfolding put
  write_default rights hardware_concurrency path files =
      if rights.writable path
      then put path (some (json.write (to_json json (default_config hardware_concurrency)))) files
      else files

  -- The configuration, or none for an exception that leaves `loadConfig`, with the files.
  pub record Loaded : Type 0 where
    pub config : Option Config
    pub files : Files

  -- The part of the `try` block after the parse: an exception of `fromArgs` is caught, and
  -- `fromArgs` is called again with the defaults.
  unfoldable pub apply_args : ℕ → List Text → Config → Option Config
  apply_args hardware_concurrency args c = elim (from_args c args) [
    | none ↦ from_args (default_config hardware_concurrency) args
    | some d ↦ some d
  ]

  -- The last part: there is no file, or it cannot be opened.
  unfoldable pub create_config : Rights → ℕ → Text → List Text → Files → Loaded
  create_config rights hardware_concurrency path args files = record {
    config = from_args (default_config hardware_concurrency) args;
    files = write_default rights hardware_concurrency path files;
  }

  -- The file is there and can be opened.
  unfoldable pub read_config : Rights → ℕ → Text → List Text → json.File → Files → Loaded
  unfolding apply_args rename create_config
  read_config rights hardware_concurrency path args file files = elim (json.read file) [
    | none ↦
        create_config rights hardware_concurrency path args
          (rename rights path (path ++ codes ".broken") files)
    | some j ↦ record {
      config = apply_args hardware_concurrency args (from_json json hardware_concurrency j);
      files = files;
    }
  ]

  -- After `exists` has not thrown.
  unfoldable pub load_found : Rights → ℕ → Text → List Text → Files → Loaded
  unfolding read_config create_config
  load_found rights hardware_concurrency path args files = elim (files path) [
    | none ↦ create_config rights hardware_concurrency path args files
    | some file ↦
        if rights.readable path
        then read_config rights hardware_concurrency path args file files
        else create_config rights hardware_concurrency path args files
  ]

  unfoldable pub load_config_at : Rights → ℕ → Text → List Text → Files → Loaded
  unfolding load_found
  load_config_at rights hardware_concurrency path args files =
      if rights.findable path
      then load_found rights hardware_concurrency path args files
      else record { config = none; files = files }

  unfoldable pub load_config : Rights → ℕ → List Text → Files → Loaded
  unfolding load_config_at
  load_config rights hardware_concurrency args files =
      load_config_at rights hardware_concurrency (config_path args) args files
