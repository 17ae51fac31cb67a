-- ===== src/Config.antt =====
-- struct Config (include/config.hpp, src/config.cpp): the settings, their JSON form, and the
-- command line. What is written to the standard streams is left out. `hardware_concurrency` is the
-- number of processors that the system reports.
pub mod RoundTrip
pub mod Arguments
pub mod File
pub mod Help
use priority_http_server.Prelude.{
  ℕ, Bool, true, List, [], ◌∷◌, Option, none, some, ◌==◌, if◌then◌else◌,
}
use priority_http_server.Prelude.Int.{ℤ, pos}
use priority_http_server.Prelude.Text.{Text, codes}
use priority_http_server.Logger.{LogLevel, info, log_level_to_str, string_to_log_level}
use priority_http_server.Json.{Json}

pub record Config : Type 0 where
  pub port : ℕ
  pub bind_address : Text
  pub threads : ℕ
  pub io_threads : ℕ
  pub static_root : Text
  pub static_max_file_size_mb : ℕ
  pub log_level : LogLevel
  pub sample_rate : ℕ
  pub log_file_path : Text
  pub body_limit_mb : ℕ
  pub max_queue_size : ℕ
  pub max_connections : ℕ
  pub server_name : Text
  pub cors_allow_origin : Text
  pub enable_keepalive : Bool
  pub keepalive_timeout_sec : ℤ
  pub max_keepalive_requests : ℕ
  pub drain_timeout_sec : ℤ

unfoldable pub default_config : ℕ → Config
default_config hardware_concurrency = record {
  port = 8080;
  bind_address = codes "0.0.0.0";
  threads = hardware_concurrency;
  io_threads = 4;
  static_root = codes "static";
  static_max_file_size_mb = 10;
  log_level = info;
  sample_rate = 100;
  log_file_path = codes "";
  body_limit_mb = 10;
  max_queue_size = 1000;
  max_connections = 10000;
  server_name = codes "PriorityHttpServer/2.0";
  cors_allow_origin = codes "*";
  enable_keepalive = true;
  keepalive_timeout_sec = pos 30;
  max_keepalive_requests = 500;
  drain_timeout_sec = pos 5;
}

-- The last step of `fromJson` and of `fromArgs`.
unfoldable pub at_least_one_thread : Config → Config
at_least_one_thread c = if c.threads == 0 then record c { threads = 1 } else c

-- `safeSet`: the value of the key, if it is there and converts; else the field as it was.
unfoldable pub safe_set {ℓ κ} : {V : Type ℓ} {A : Type κ} → Option V → (V → Option A) → A → A
safe_set none converter field = field
safe_set (some v) converter field = elim (converter v) [ none ↦ field | some a ↦ a ]

module _ (json : Json) where
  -- The entries that `toJson` assigns one after the other.
  unfoldable pub config_entries : Config → List (Text × json.Value)
  config_entries c =
      (codes "port", json.unsigned c.port)
      ∷ (codes "bind_address", json.string c.bind_address)
      ∷ (codes "threads", json.unsigned c.threads)
      ∷ (codes "io_threads", json.unsigned c.io_threads)
      ∷ (codes "static_root", json.string c.static_root)
      ∷ (codes "static_max_file_size_mb", json.unsigned c.static_max_file_size_mb)
      ∷ (codes "log_level", json.string (log_level_to_str c.log_level))
      ∷ (codes "sample_rate", json.unsigned c.sample_rate)
      ∷ (codes "log_file_path", json.string c.log_file_path)
      ∷ (codes "body_limit_mb", json.unsigned c.body_limit_mb)
      ∷ (codes "max_queue_size", json.unsigned c.max_queue_size)
      ∷ (codes "max_connections", json.unsigned c.max_connections)
      ∷ (codes "server_name", json.string c.server_name)
      ∷ (codes "cors_allow_origin", json.string c.cors_allow_origin)
      ∷ (codes "enable_keepalive", json.boolean c.enable_keepalive)
      ∷ (codes "keepalive_timeout_sec", json.integer c.keepalive_timeout_sec)
      ∷ (codes "max_keepalive_requests", json.unsigned c.max_keepalive_requests)
      ∷ (codes "drain_timeout_sec", json.integer c.drain_timeout_sec)
      ∷ []

  unfoldable pub to_json : Config → json.Value
  to_json c = json.object (config_entries c)

  -- `contains("log_level") && is_string()`
  unfoldable pub level_or : Option json.Value → LogLevel → LogLevel
  level_or none field = field
  level_or (some v) field =
      if json.is_string v
      then safe_set (json.get_string v) (λ s. some (string_to_log_level s)) field
      else field

  -- `contains(key) && is_number()`, then seconds
  unfoldable pub seconds_or : Option json.Value → ℤ → ℤ
  seconds_or none field = field
  seconds_or (some v) field =
      if json.is_number v then safe_set (some v) json.get_integer field else field

  -- The fields of `fromJson` before the check of `threads`; `c` holds the defaults.
  unfoldable pub read_fields : json.Value → Config → Config
  read_fields j c =
      let size = json.get_unsigned 64 in
      let at = λ (key : Text). json.member key j in
      record {
        port = safe_set (at (codes "port")) (json.get_unsigned 16) c.port;
        bind_address = safe_set (at (codes "bind_address")) json.get_string c.bind_address;
        threads = safe_set (at (codes "threads")) size c.threads;
        io_threads = safe_set (at (codes "io_threads")) (json.get_unsigned 32) c.io_threads;
        static_root = safe_set (at (codes "static_root")) json.get_string c.static_root;
        static_max_file_size_mb =
            safe_set (at (codes "static_max_file_size_mb")) size c.static_max_file_size_mb;
        log_level = level_or (at (codes "log_level")) c.log_level;
        sample_rate = safe_set (at (codes "sample_rate")) (json.get_unsigned 32) c.sample_rate;
        log_file_path = safe_set (at (codes "log_file_path")) json.get_string c.log_file_path;
        body_limit_mb = safe_set (at (codes "body_limit_mb")) size c.body_limit_mb;
        max_queue_size = safe_set (at (codes "max_queue_size")) size c.max_queue_size;
        max_connections = safe_set (at (codes "max_connections")) size c.max_connections;
        server_name = safe_set (at (codes "server_name")) json.get_string c.server_name;
        cors_allow_origin =
            safe_set (at (codes "cors_allow_origin")) json.get_string c.cors_allow_origin;
        enable_keepalive =
            safe_set (at (codes "enable_keepalive")) json.get_bool c.enable_keepalive;
        keepalive_timeout_sec =
            seconds_or (at (codes "keepalive_timeout_sec")) c.keepalive_timeout_sec;
        max_keepalive_requests =
            safe_set (at (codes "max_keepalive_requests")) size c.max_keepalive_requests;
        drain_timeout_sec = seconds_or (at (codes "drain_timeout_sec")) c.drain_timeout_sec;
      }

  unfoldable pub from_json : ℕ → json.Value → Config
  from_json hardware_concurrency j =
      at_least_one_thread (read_fields j (default_config hardware_concurrency))
